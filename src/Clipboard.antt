-- ===== src/Clipboard.antt =====
-- src/io/clipboard.rs. The clipboard is shared with the other programs; the threads that clear it
-- each wake once, not before their time, so a run is a sequence of turns. Times are nanoseconds. Each
-- answer of Windows is an argument, and `encode_utf16` is a parameter.
pub mod Clears
use passx.Base.{
  Result, Bool, List, Option, Text, [], err, if◌then◌else◌, leb, none, not, ok, some, suc, zero, ℕ,
  ◌&&◌, ◌*◌, ◌++◌, ◌+◌, ◌==◌, ◌∷◌,
}

-- What this program copied, and whether the history leaves it out, or what another one did.
pub data Content : Type 0 where
  nothing : Content
  copied : List ℕ → Bool → Content
  foreign : List ℕ → Content

-- `clearers` are the times until which the threads that clear it sleep.
pub record Clipboard : Type 0 where
  pub content : Content
  pub now : ℕ
  pub clearers : List ℕ

-- `format` is the number of the format that keeps a text out of the history, 0 on an error.
pub record CopyCalls : Type 0 where
  pub opens : Bool
  pub empties : Bool
  pub allocates : Bool
  pub locks_memory : Bool
  pub sets : Bool
  pub format : ℕ
  pub allocates_dummy : Bool
  pub sets_dummy : Bool

pub data CopyError : Type 0 where
  open_failed empty_failed alloc_failed lock_failed set_failed : CopyError

unfoldable pub clear_clipboard : Bool → Bool → Clipboard → Clipboard
clear_clipboard opens empties c = if opens && empties then record c { content = nothing } else c

module _ (encode_utf16 : Text → List ℕ) where
  -- The text with its terminator, and the format for the history.
  unfoldable pub set_content : CopyCalls → Text → Clipboard → Clipboard
  set_content io text c = record c {
    content =
        copied (encode_utf16 text ++ (0 ∷ []))
          (not (io.format == 0) && (io.allocates_dummy && io.sets_dummy));
  }

  unfoldable pub copy_to_clipboard :
      CopyCalls → Text → ℕ → Clipboard → Result CopyError (Unit {0}) × Clipboard
  unfolding set_content
  copy_to_clipboard io text timeout_secs c =
      let emptied = record c { content = nothing } in
      let set : Clipboard = record (set_content io text c) {
        clearers = (c.now + timeout_secs * 1000000000) ∷ c.clearers;
      } in
      if not io.opens
      then (err open_failed, c)
      else if not io.empties
      then (err empty_failed, c)
      else if not io.allocates
      then (err alloc_failed, emptied)
      else if not io.locks_memory
      then (err lock_failed, emptied)
      else if not io.sets
      then (err set_failed, emptied)
      else (ok tt, set)

-- The clearers without the one at a place, when its time has come.
abbrev pub take_clearer : ℕ → ℕ → List ℕ → Option (List ℕ)
take_clearer k now [] = none
take_clearer zero now (d ∷ ds) = if leb d now then some ds else none
take_clearer (suc k) now (d ∷ ds) = elim (take_clearer k now ds) [
  | none ↦ none
  | some rest ↦ some (d ∷ rest)
]

-- The thread clears the clipboard once and ends, also when the clipboard could not be opened.
unfoldable pub wake_clearer : ℕ → Bool → Bool → Clipboard → Clipboard
unfolding clear_clipboard
wake_clearer k opens empties c = elim (take_clearer k c.now c.clearers) [
  | none ↦ c
  | some rest ↦ clear_clipboard opens empties (record c { clearers = rest })
]

-- The turns between two copies: time passes, another program copies a text, and a clearer wakes up.
pub data Turn : Type 0 where
  passes : ℕ → Turn
  others : List ℕ → Turn
  wakes : ℕ → Bool → Bool → Turn

unfoldable pub turn : Turn → Clipboard → Clipboard
unfolding wake_clearer
turn (passes n) c = record c { now = c.now + n }
turn (others units) c = record c { content = foreign units }
turn (wakes k opens empties) c = wake_clearer k opens empties c

unfoldable pub run : List Turn → Clipboard → Clipboard
unfolding turn
run [] c = c
run (t ∷ ts) c = run ts (turn t c)
