-- ===== src/RunController/Cues.antt =====
-- The sounds of a run: `cues` and voiceFor of frontend/cockpit/src/logbook/runController.ts.
use discodb.Prelude.{
  ℕ, ◌+◌, ◌-◌, ◌/◌, Bool, true, false, not, ◌&&◌, ◌||◌, List, ◌∷◌, Option, none, some, ltb, leb,
  ◌==◌, if◌then◌else◌,
}
use discodb.RunEngine.Defs.{
  LogbookPhase, noise, stimulus, LogbookRunPhase, RunState, is_running, is_input,
}

pub data SonifVoice : Type 0 where
  noise_voice awaiting_voice stimulus_voice observe_voice : SonifVoice

pub data Sound : Type 0 where
  transition countdown await_beep connect disconnect lead_in_beep : Sound
  voice : Option SonifVoice → Sound

-- The trackers of `cues`, and the sounds so far, the last one first.
pub record CueState : Type 0 where
  pub last_index : Option ℕ
  pub last_countdown_sec : ℕ
  pub next_await_at : ℕ
  pub was_awaiting : Bool
  pub sounds : List Sound

abbrev pub play : Sound → CueState → CueState
play x k = record k { sounds = x ∷ k.sounds }

abbrev pub voice_by_advance : Bool → LogbookPhase → SonifVoice
voice_by_advance true _ = awaiting_voice
voice_by_advance false stimulus = stimulus_voice
voice_by_advance false _ = observe_voice

unfoldable pub voice_for : LogbookPhase → Bool → SonifVoice
voice_for noise input = noise_voice
voice_for p input = voice_by_advance input p

abbrev pub same_index : Option ℕ → Option ℕ → Bool
same_index none none = true
same_index (some i) (some j) = i == j
same_index _ _ = false

abbrev pub announce : Option LogbookRunPhase → CueState → CueState
announce none k = k
announce (some p) k =
    play (voice (some (voice_for p.phase (is_input p.advance)))) (play transition k)

-- The first test of `cues`.
unfoldable pub enter_phase : RunState → CueState → CueState
unfolding voice_for
enter_phase st k =
    if same_index st.phase_index k.last_index
    then k
    else announce st.phase (record k { last_index = st.phase_index; last_countdown_sec = 99 })

-- The seconds left, rounded up.
abbrev pub seconds_left : ℕ → ℕ
seconds_left us = (us + 999999) / 1000000

abbrev pub counts_down : ℕ → CueState → Bool
counts_down left k =
    ltb 0 left && (leb left 2000000 && ltb (seconds_left left) k.last_countdown_sec)

abbrev pub beep_left : ℕ → CueState → CueState
beep_left left k =
    if counts_down left k
    then record (play countdown k) { last_countdown_sec = seconds_left left }
    else k

-- The second one: no countdown in a phase that waits for input.
unfoldable pub count_down : Option LogbookRunPhase → ℕ → CueState → CueState
count_down none elapsed k = k
count_down (some p) elapsed k =
    if is_input p.advance then k else beep_left (p.duration_us - elapsed) k

-- The third one. `gap` is the pause that `awaitGap` draws.
unfoldable pub remind : ℕ → ℕ → Bool → CueState → CueState
remind wall gap awaiting k =
    if awaiting && (not k.was_awaiting || leb k.next_await_at wall)
    then record (play await_beep k) { next_await_at = wall + gap; was_awaiting = awaiting }
    else record k { was_awaiting = awaiting }

unfoldable pub cues : ℕ → ℕ → RunState → CueState → CueState
cues wall gap st k =
    if is_running st.status
    then remind wall gap st.awaiting_input (count_down st.phase st.elapsed_us (enter_phase st k))
    else k
