-- ===== src/Clipboard/Clears.antt =====
-- When what src/io/clipboard.rs copied is gone from the clipboard.
use passx.Base.{
  Bool, Bool-cases, List, Option-cases, Text, [], any, arith, false, inl, inr, leb, none, not, ok,
  refl, subst, suc, sym, true, zero, ℕ, ◌&&◌, ◌*◌, ◌+◌, ◌==◌, ◌||◌, ◌∷◌, ◌≡◌, ◌≤◌, ◌⊎◌,
}
use passx.Clipboard.{
  Content, nothing, copied, foreign, Clipboard, CopyCalls, clear_clipboard, set_content,
  copy_to_clipboard, take_clearer, wake_clearer, Turn, passes, others, wakes, turn, run,
}

abbrev pub is_own : Content → Bool
is_own nothing = false
is_own (copied units hidden) = true
is_own (foreign units) = false

abbrev pub elapsed : List Turn → ℕ
elapsed [] = 0
elapsed (passes n ∷ ts) = n + elapsed ts
elapsed (others units ∷ ts) = elapsed ts
elapsed (wakes k opens empties ∷ ts) = elapsed ts

-- Whether each clearer that wakes up finds a clipboard that it can clear.
abbrev pub all_clear : List Turn → Bool
all_clear [] = true
all_clear (passes n ∷ ts) = all_clear ts
all_clear (others units ∷ ts) = all_clear ts
all_clear (wakes k opens empties ∷ ts) = opens && (empties && all_clear ts)

abbrev pub no_others : List Turn → Bool
no_others [] = true
no_others (passes n ∷ ts) = no_others ts
no_others (others units ∷ ts) = false
no_others (wakes k opens empties ∷ ts) = no_others ts

-- No clearer whose time has come is still to wake up.
abbrev pub settled : Clipboard → Bool
settled c = not (any (λ d. leb d c.now) c.clearers)

-- What is the program's own is cleared at `due`.
abbrev pub watched : ℕ → Clipboard → Bool
watched due c = not (is_own c.content) || any (λ d. d == due) c.clearers

wake_clearer-cleared :
    (k : ℕ) (c : Clipboard)
    → (wake_clearer k true true c ≡ c) ⊎ (is_own ((wake_clearer k true true c).content) ≡ false)
unfolding wake_clearer clear_clipboard
wake_clearer-cleared k c = elim (Option-cases (take_clearer k c.now c.clearers)) [
  | inl stays ↦ inl (rw (stays, wake_clearer) refl)
  | inr (rest, woken) ↦ inr (rw (woken, wake_clearer) refl)
]

run-watched :
    (due : ℕ) (ts : List Turn) (c : Clipboard)
    → all_clear ts ≡ true
    → watched due c ≡ true
    → watched due (run ts c) ≡ true
unfolding run turn
run-watched due [] c clear w = w
run-watched due (passes n ∷ ts) c clear w = run-watched due ts (turn (passes n) c) clear w
run-watched due (others units ∷ ts) c clear w =
    run-watched due ts (turn (others units) c) clear refl
run-watched due (wakes k false empties ∷ ts) c clear w = cc
run-watched due (wakes k true false ∷ ts) c clear w = cc
run-watched due (wakes k true true ∷ ts) c clear w =
    run-watched due ts (turn (wakes k true true) c) clear (elim (wake_clearer-cleared k c) [
      | inl same ↦ subst (λ x. watched due x ≡ true) (sym same) w
      | inr gone ↦ rw gone refl
    ])

clearer_keeps_time :
    (k : ℕ) (opens empties : Bool) (c : Clipboard) → (wake_clearer k opens empties c).now ≡ c.now
unfolding wake_clearer clear_clipboard
clearer_keeps_time k opens empties c = elim (Option-cases (take_clearer k c.now c.clearers)) [
  | inl stays ↦ rw (stays, wake_clearer) refl
  | inr (rest, woken) ↦ rw (woken, wake_clearer, clear_clipboard) (ground arith)
]

run-elapsed : (ts : List Turn) (c : Clipboard) → (run ts c).now ≡ c.now + elapsed ts
unfolding run turn
run-elapsed [] c = omega arith
run-elapsed (passes n ∷ ts) c = rw (run-elapsed ts (turn (passes n) c)) (omega arith)
run-elapsed (others units ∷ ts) c = run-elapsed ts (turn (others units) c)
run-elapsed (wakes k opens empties ∷ ts) c =
    rw (run-elapsed ts (turn (wakes k opens empties) c), clearer_keeps_time k opens empties c) refl

due_any :
    (due now : ℕ) (ds : List ℕ)
    → due ≤ now
    → any (λ d. d == due) ds ≡ true
    → any (λ d. leb d now) ds ≡ true
due_any due now [] late h = cc
due_any due now (d ∷ ds) late h = ground (arith, due_any due now ds late)

copied-clearers :
    (encode : Text → List ℕ) (io : CopyCalls) (text : Text) (timeout : ℕ) (c : Clipboard)
    → (copy_to_clipboard encode io text timeout c).0 ≡ ok tt
    → (copy_to_clipboard encode io text timeout c).1 ≡ (record (set_content encode io text c) {
      clearers = (c.now + timeout * 1000000000) ∷ c.clearers;
    })
unfolding copy_to_clipboard
copied-clearers encode io text timeout c done = ground (arith, done)

settled_disowns :
    (due : ℕ) (c : Clipboard)
    → due ≤ c.now
    → watched due c ≡ true
    → settled c ≡ true
    → is_own c.content ≡ false
settled_disowns due c late w quiet = elim (Bool-cases (is_own c.content)) [
  | inr gone ↦ gone
  | inl own ↦ ground (arith, due_any due c.now c.clearers late)
]

-- Once a text was copied, and its time has passed without another copy of the program's own, it is
-- gone from the clipboard as soon as each clearer whose time has come has woken up, when those that
-- wake can clear the clipboard, whatever other programs copy and whatever other clearers there are.
pub copy_to_clipboard_gone :
    (encode : Text → List ℕ) (io : CopyCalls) (text : Text) (timeout : ℕ) (ts : List Turn)
    (c : Clipboard)
    → (copy_to_clipboard encode io text timeout c).0 ≡ ok tt
    → timeout * 1000000000 ≤ elapsed ts
    → all_clear ts ≡ true
    → settled (run ts (copy_to_clipboard encode io text timeout c).1) ≡ true
    → is_own ((run ts (copy_to_clipboard encode io text timeout c).1).content) ≡ false
unfolding set_content
copy_to_clipboard_gone encode io text timeout ts c done late clear quiet =
    let due = c.now + timeout * 1000000000 in
    let set : Clipboard = record (set_content encode io text c) { clearers = due ∷ c.clearers } in
    let same : (copy_to_clipboard encode io text timeout c).1 ≡ set =
      copied-clearers encode io text timeout c done in
    let quiet_set : settled (run ts set) ≡ true =
      subst (λ x. settled (run ts x) ≡ true) same quiet in
    let at_end : due ≤ (run ts set).now = rw (run-elapsed ts set) (omega (arith, late)) in
    let watch : watched due (run ts set) ≡ true = run-watched due ts set clear (ground arith) in
    subst (λ x. is_own ((run ts x).content) ≡ false) (sym same)
      (settled_disowns due (run ts set) at_end watch quiet_set)

take_clearer-none : (k now : ℕ) → take_clearer k now [] ≡ none
take_clearer-none zero now = refl
take_clearer-none (suc k) now = refl

no_clearer_keeps :
    (ts : List Turn) (c : Clipboard)
    → c.clearers ≡ []
    → no_others ts ≡ true
    → (run ts c).content ≡ c.content
unfolding run turn wake_clearer
no_clearer_keeps [] c none_left quiet = refl
no_clearer_keeps (passes n ∷ ts) c none_left quiet =
    no_clearer_keeps ts (turn (passes n) c) none_left quiet
no_clearer_keeps (others units ∷ ts) c none_left quiet = cc
no_clearer_keeps (wakes k opens empties ∷ ts) c none_left quiet =
    let asleep : take_clearer k c.now c.clearers ≡ none =
      subst (λ ds. take_clearer k c.now ds ≡ none) (sym none_left) (take_clearer-none k c.now) in
    let same : wake_clearer k opens empties c ≡ c = rw (asleep, wake_clearer) refl in
    subst (λ x. (run ts x).content ≡ c.content) (sym same) (no_clearer_keeps ts c none_left quiet)

-- When a text was copied while no other clearer was pending, and its own clearer wakes up after its
-- time and cannot clear the clipboard, the text stays: whatever wakes up later and however long it
-- takes, unless something else is copied.
copy_to_clipboard_stays :
    (encode : Text → List ℕ) (io : CopyCalls) (text : Text) (timeout n : ℕ) (opens empties : Bool)
    (ts : List Turn) (c : Clipboard)
    → c.clearers ≡ []
    → (copy_to_clipboard encode io text timeout c).0 ≡ ok tt
    → timeout * 1000000000 ≤ n
    → opens && empties ≡ false
    → no_others ts ≡ true
    → (run
        (passes n ∷ wakes 0 opens empties ∷ ts)
        (copy_to_clipboard encode io text timeout c).1).content
      ≡ (set_content encode io text c).content
unfolding run turn set_content
copy_to_clipboard_stays encode io text timeout n opens empties ts c alone done late refused quiet =
    let due = c.now + timeout * 1000000000 in
    let set : Clipboard = record (set_content encode io text c) { clearers = due ∷ c.clearers } in
    let left : Clipboard = record set { now = c.now + n; clearers = c.clearers } in
    let same : (copy_to_clipboard encode io text timeout c).1 ≡ set =
      copied-clearers encode io text timeout c done in
    let awake : leb due (c.now + n) ≡ true = ground arith in
    let woken : turn (wakes 0 opens empties) (turn (passes n) set) ≡ left =
      rw (wake_clearer, awake, clear_clipboard, refused) refl in
    let keeps : Clipboard → Type 0 = λ x. x.content ≡ (set_content encode io text c).content in
    subst (λ x. keeps (run (passes n ∷ wakes 0 opens empties ∷ ts) x)) (sym same)
      (subst (λ x. keeps (run ts x)) (sym woken) (no_clearer_keeps ts left alone quiet))
