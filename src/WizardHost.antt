-- ===== src/WizardHost.antt =====
-- `WizardHost` of frontend/cockpit/src/hunt/wizardHost.ts: the timers, the trial ledger and the relay
-- around the reducer of frontend/shared/wizard-fsm.ts. A pending `setTimeout` is the time at which it
-- fires; a method that may arm one takes the time of the call in ms, and what `playCue` returned, or
-- `none` where it threw.
pub mod Defs
pub mod Invariant
pub mod Unattended
pub mod Stale
mod Tests
