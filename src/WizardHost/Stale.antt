-- ===== src/WizardHost/Stale.antt =====
-- Controls that come too late for their phase, and the trials that the ledger of
-- frontend/cockpit/src/hunt/wizardHost.ts records.
use discodb.Prelude.{ℕ, ◌+◌, ◌<◌, ◌≡◌, List, [], ◌∷◌, ◌++◌, length, Option, none, arith}
use discodb.Wizard.{WizardPhase, feedback, retry_prompt, step}
use discodb.WizardHost.Defs.{
  Host, good, failed, skipped, TrialRecord, Press, press_success, press_fail, press_skip, event_of,
  apply_effect, count_misses, snapshot, dispatch, press,
}
use discodb.WizardHost.Invariant.{HostInv, count_of}

-- A phase that a timer is to end.
abbrev pub IsWaiting : WizardPhase → Type 0
IsWaiting feedback = Unit
IsWaiting retry_prompt = Unit
IsWaiting _ = ⊥

-- A control that the reducer ignores while the host waits for the operator takes the pending timer
-- away: the series stays where it is, with neither a timer nor a cue watchdog to end the wait.
pub press-stalls :
    (now : ℕ) (played : Option ℕ) (b : Press) (h : Host)
    → HostInv h
    → IsWaiting h.state.phase
    → (step h.state (event_of b) h.config).effects ≡ []
    → ((press now played b h).state ≡ h.state)
      × ((press now played b h).timer ≡ none)
      × ((press now played b h).cue_watchdog ≡ none)
unfolding press dispatch apply_effect step
press-stalls now played b h v w e = (ground arith, ground arith, ground (arith, v.cue))

-- The trial that a control adds to the ledger in its phase: a failed one, in the feedback phase,
-- stands under the index of the test that it belongs to, but a good one that does not end the series,
-- in the same phase, and a skipped one, in the retry prompt, stand under the index of the test after
-- it.
pub press-ledger :
    (now : ℕ) (played : Option ℕ) (h prompted : Host)
    → h.state.phase ≡ feedback
    → h.state.good + 1 < h.config.repetitions
    → prompted.state.phase ≡ retry_prompt
    → ((press now played press_fail h).ledger
        ≡ h.ledger ++ record { rep_index = h.state.rep_index; outcome = failed } ∷ [])
      × ((press now played press_success h).ledger
          ≡ h.ledger ++ record { rep_index = h.state.rep_index + 1; outcome = good } ∷ [])
      × ((press now played press_skip prompted).ledger
          ≡ prompted.ledger
            ++ record { rep_index = prompted.state.rep_index + 1; outcome = skipped } ∷ [])
unfolding press dispatch apply_effect step
press-ledger now played h prompted e l r = (ground arith, ground arith, ground arith)

count_misses-sum :
    (ts : List TrialRecord) (f s : ℕ)
    → count_of good ts + (count_misses ts f s).0 + (count_misses ts f s).1 ≡ length ts + f + s
unfolding count_of count_misses
count_misses-sum [] f s = omega arith
count_misses-sum (t ∷ ts) f s =
    ground
      (arith, count_misses-sum ts f s, count_misses-sum ts (f + 1) s, count_misses-sum ts f (s + 1))

-- The counts that subscribers get add up to the trials of the ledger.
pub snapshot-length :
    (h : Host)
    → HostInv h
    → (snapshot h).good + (snapshot h).failed + (snapshot h).skipped ≡ length h.ledger
unfolding snapshot
snapshot-length h v = omega (arith, v.good_counted, count_misses-sum h.ledger 0 0)
