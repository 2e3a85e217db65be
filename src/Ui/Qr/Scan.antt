-- ===== src/Ui/Qr/Scan.antt =====
-- The scans of src/ui/bridge/qr_scanner.rs, and the callbacks of src/ui/bridge/entries.rs that show
-- what they find. An image is what the crate rqrr finds in it: its grids, each with its content if it
-- decodes. `none` is a panic.
use passx.Base.{
  ◌>>=◌, Result, All, Bool, List, Option, [], ap, arith, err, false, if◌then◌else◌, length, ltb,
  lt→ltb, none, ok, ok_or, refl, some, suc, true, zero, ℕ, ◌++◌, ◌-◌, ◌<◌, ◌==◌, ◌∙◌, ◌∷◌, ◌≡◌, ◌≤◌,
}
use passx.Ui.Qr.Decode.{IsAscii}
use passx.Ui.Qr.{Chars, QrResult, Unicode, len_utf8, parse_otpauth_uri}

abbrev pub Image : Type 0
Image = List (Option Chars)

pub data ScanError : Type 0 where
  no_code decode_failed no_monitors monitors_failed no_code_on_screen not_totp : ScanError
  clipboard_failed no_clipboard_image bad_clipboard_image no_file_selected open_failed : ScanError
  capture_failed : ℕ → ScanError

unfoldable pub decode_qr_from_image : Image → Result ScanError Chars
decode_qr_from_image [] = err no_code
decode_qr_from_image (none ∷ grids) = err decode_failed
decode_qr_from_image (some content ∷ grids) = ok content

-- `&content[..content.len().min(n)]` has a character boundary at its end.
unfoldable pub cuts_at : ℕ → Chars → Bool
cuts_at n [] = true
cuts_at n (c ∷ cs) =
    if n == 0 then true else if ltb n (len_utf8 c) then false else cuts_at (n - len_utf8 c) cs

-- The first 50 bytes are logged.
abbrev pub logged {ℓ} : {A : Type ℓ} → Chars → A → Option A
logged content a = if cuts_at 50 content then some a else none

module _ (u : Unicode) where
  abbrev pub report : Chars → Result ScanError QrResult
  report content = ok_or not_totp (parse_otpauth_uri u content)

  -- What became of the capture of each monitor: `none` when it fails, and no image when its pixels
  -- make none.
  unfoldable pub scan_monitors :
      ℕ → List (Option (Option Image)) → Option (Result ScanError QrResult)
  unfolding decode_qr_from_image cuts_at
  scan_monitors i [] = some (err no_code_on_screen)
  scan_monitors i (none ∷ ms) = some (err (capture_failed i))
  scan_monitors i (some none ∷ ms) = scan_monitors (suc i) ms
  scan_monitors i (some (some image) ∷ ms) = elim (decode_qr_from_image image) [
    | err e ↦ scan_monitors (suc i) ms
    | ok content ↦ logged content (report content)
  ]

  unfoldable pub scan_qr_from_screen :
      Option (List (Option (Option Image))) → Option (Result ScanError QrResult)
  unfolding scan_monitors
  scan_qr_from_screen none = some (err monitors_failed)
  scan_qr_from_screen (some []) = some (err no_monitors)
  scan_qr_from_screen (some (m ∷ ms)) = scan_monitors 0 (m ∷ ms)

  abbrev scan_clipboard_image : Image → Option (Result ScanError QrResult)
  scan_clipboard_image image = elim (decode_qr_from_image image) [
    | err e ↦ some (err e)
    | ok content ↦ logged content (report content)
  ]

  -- The clipboard opens or not, has an image or not, and its pixels make an image or not.
  unfoldable pub scan_qr_from_clipboard :
      Option (Option (Option Image)) → Option (Result ScanError QrResult)
  unfolding decode_qr_from_image cuts_at
  scan_qr_from_clipboard none = some (err clipboard_failed)
  scan_qr_from_clipboard (some none) = some (err no_clipboard_image)
  scan_qr_from_clipboard (some (some none)) = some (err bad_clipboard_image)
  scan_qr_from_clipboard (some (some (some image))) = scan_clipboard_image image

  unfoldable pub scan_qr_from_file : Option (Option Image) → Result ScanError QrResult
  unfolding decode_qr_from_image
  scan_qr_from_file none = err no_file_selected
  scan_qr_from_file (some none) = err open_failed
  scan_qr_from_file (some (some image)) = do content ← decode_qr_from_image image; report content

-- What the window shows of a scan.
pub record ScanWindow : Type 0 where
  pub qr_scan_error : Option ScanError
  pub qr_scanned_account : Chars
  pub qr_scanned_secret : Chars
  pub qr_scanned_issuer : Chars

unfoldable pub show_scan : Result ScanError QrResult → ScanWindow
show_scan (ok qr) = record {
  qr_scan_error = none;
  qr_scanned_account = qr.account;
  qr_scanned_secret = qr.secret;
  qr_scanned_issuer = qr.issuer;
}
show_scan (err e) = record {
  qr_scan_error = some e;
  qr_scanned_account = [];
  qr_scanned_secret = [];
  qr_scanned_issuer = [];
}

-- A panic ends the thread of the callback, and leaves the window as it is.
abbrev shown_scan : Option (Result ScanError QrResult) → ScanWindow → ScanWindow
shown_scan none w = w
shown_scan (some r) w = show_scan r

module _ (u : Unicode) where
  unfoldable pub on_scan_qr_from_screen :
      Option (List (Option (Option Image))) → ScanWindow → ScanWindow
  unfolding scan_qr_from_screen show_scan
  on_scan_qr_from_screen monitors w = shown_scan (scan_qr_from_screen u monitors) w

  unfoldable pub on_scan_qr_from_clipboard :
      Option (Option (Option Image)) → ScanWindow → ScanWindow
  unfolding scan_qr_from_clipboard show_scan
  on_scan_qr_from_clipboard clipboard w = shown_scan (scan_qr_from_clipboard u clipboard) w

  unfoldable pub on_scan_qr_from_file : Option (Option Image) → ScanWindow → ScanWindow
  unfolding scan_qr_from_file show_scan
  on_scan_qr_from_file file w = shown_scan (some (scan_qr_from_file u file)) w

cuts_at_ascii : (n : ℕ) (cs : Chars) → All IsAscii cs → cuts_at n cs ≡ true
unfolding cuts_at
cuts_at_ascii n [] h = refl
cuts_at_ascii n (c ∷ cs) h =
    let one : len_utf8 c ≡ 1 = ground arith in ground (arith, cuts_at_ascii (n - 1) cs h.1, one)

-- Some monitors on which no code is found.
abbrev blank : ℕ → List (Option (Option Image)) → List (Option (Option Image))
blank zero ms = ms
blank (suc n) ms = some (some []) ∷ blank n ms

scan_monitors-blank :
    (u : Unicode) (n i : ℕ) (grids : Image) (content : Chars) (ms : List (Option (Option Image)))
    → All IsAscii content
    → scan_monitors u i (blank n (some (some (some content ∷ grids)) ∷ ms))
      ≡ some (report u content)
unfolding scan_monitors
scan_monitors-blank u zero i grids content ms ascii = rw (cuts_at_ascii 50 content ascii) refl
scan_monitors-blank u (suc n) i grids content ms ascii =
    scan_monitors-blank u n (suc i) grids content ms ascii

scan_qr_from_screen-blank :
    (u : Unicode) (n : ℕ) (m : Option (Option Image)) (ms : List (Option (Option Image)))
    → scan_qr_from_screen u (some (blank n (m ∷ ms))) ≡ scan_monitors u 0 (blank n (m ∷ ms))
unfolding scan_qr_from_screen
scan_qr_from_screen-blank u zero m ms = refl
scan_qr_from_screen-blank u (suc n) m ms = refl

-- The same code of ASCII characters shows the same from a file, from the clipboard, and from the
-- first screen that shows any code.
scans_agree :
    (u : Unicode) (n : ℕ) (grids : Image) (content : Chars) (ms : List (Option (Option Image)))
    (w : ScanWindow)
    → All IsAscii content
    → (on_scan_qr_from_clipboard u (some (some (some (some content ∷ grids)))) w
        ≡ on_scan_qr_from_file u (some (some (some content ∷ grids))) w)
      × (on_scan_qr_from_screen u (some (blank n (some (some (some content ∷ grids)) ∷ ms))) w
          ≡ on_scan_qr_from_file u (some (some (some content ∷ grids))) w)
unfolding on_scan_qr_from_clipboard on_scan_qr_from_file on_scan_qr_from_screen
scans_agree u n grids content ms w ascii = (
  rw (cuts_at_ascii 50 content ascii) refl,
  ap (λ r. shown_scan r w)
      (scan_qr_from_screen-blank u n (some (some (some content ∷ grids))) ms
        ∙ scan_monitors-blank u n 0 grids content ms ascii),
)

cuts_at_narrow : (n c : ℕ) (cs : Chars) → c < 128 → cuts_at (suc n) (c ∷ cs) ≡ cuts_at n cs
unfolding cuts_at
cuts_at_narrow n c cs h =
    let one : ltb c 128 ≡ true = lt→ltb c 128 h in
    let more : ltb (suc n) 1 ≡ false = ground arith in
    let less : suc n - 1 ≡ n = omega arith in
    let some_left : (suc n == 0) ≡ false = ground arith in rw (some_left, one, more, less) refl

-- ASCII characters in front of a wider one.
cuts_at_wide :
    (n : ℕ) (cs rest : Chars) (c : ℕ)
    → All IsAscii cs
    → length cs ≡ n
    → 128 ≤ c
    → cuts_at (suc n) (cs ++ (c ∷ rest)) ≡ false
unfolding cuts_at
cuts_at_wide n [] rest c ascii len wide = ground arith
cuts_at_wide zero (x ∷ cs) rest c ascii len wide = absurd (omega arith)
cuts_at_wide (suc n) (x ∷ cs) rest c ascii len wide =
    cuts_at_narrow (suc n) x (cs ++ (c ∷ rest)) ascii.0
    ∙ cuts_at_wide n cs rest c ascii.1 (omega arith) wide

-- A code whose 50th character is its first beyond ASCII panics the scan of the clipboard, so that the
-- window does not change, while the scan of a file shows what the code parses to.
scan_panics :
    (u : Unicode) (grids : Image) (cs rest : Chars) (c : ℕ) (w : ScanWindow)
    → All IsAscii cs
    → length cs ≡ 49
    → 128 ≤ c
    → (on_scan_qr_from_clipboard u (some (some (some (some (cs ++ (c ∷ rest)) ∷ grids)))) w ≡ w)
      × (on_scan_qr_from_file u (some (some (some (cs ++ (c ∷ rest)) ∷ grids))) w
          ≡ show_scan (ok_or not_totp (parse_otpauth_uri u (cs ++ (c ∷ rest)))))
unfolding on_scan_qr_from_clipboard on_scan_qr_from_file
scan_panics u grids cs rest c w ascii len wide =
    (rw (cuts_at_wide 49 cs rest c ascii len wide) refl, refl)
