-- ===== src/Shell/Moved.antt =====
-- The working directory of src/kernel/shell/shell.c stays absolute, whatever it is changed to.
use lux_kernel.Base.{
  ℕ, zero, suc, ◌+◌, ◌-◌, ◌<◌, ◌≡◌, refl, sym, ◌∙◌, ap, false, ◌&&◌, Option, none, some, List, [],
  ◌∷◌, ltb, ◌==◌, get_or, set, take, length, length-set, arith, Bool-cases, inl, inr,
}
use lux_kernel.Strings.{strlen, memcpy}
use lux_kernel.Strings.Copy.{get_or-set, get_or-memcpy, length-memcpy}
use lux_kernel.Bytes.{get_or-append, take-at, length-take_le}
use lux_kernel.Shell.Text.{shell_strnlen, shell_normalize_path, normalize_loop}
use lux_kernel.Shell.Cwd.{shell_resolve_path, shell_set_cwd_string, shell_set_cwd, enter}
use lux_kernel.Device.{Device}
use lux_kernel.Fs.{M, Sys, Outcome, ok, fail, fault, continue, pure, failed, ◌>>=◌}
use lux_kernel.Shell.Resolved.{IsString, Stripped, IsString-strnlen, shell_normalize_path-Stripped}
use lux_kernel.Shell.Joined.{behind, needs_slash, length-behind}
use lux_kernel.Shell.Absolute.{PathText, Resolves, target, needed, shell_resolve_path-Resolves}

-- A string that begins with a slash and ends with none, unless it is the root.
pub record IsAbsolute (str : List ℕ) : Type 0 where
  pub text : List ℕ
  pub string : IsString text str
  pub fits : length text < 256
  pub rooted : get_or text 0 0 ≡ b'/'
  pub last : 1 < length text → (get_or text (length text - 1) 0 == b'/') ≡ false

text-nonempty : (xs : List ℕ) → get_or xs 0 0 ≡ b'/' → 0 < length xs
text-nonempty [] e = absurd (ground (arith, e))
text-nonempty (x ∷ xs) e = omega arith

Stripped-IsAbsolute :
    (text str : List ℕ)
    → Stripped text str
    → length text < 256
    → get_or text 0 0 ≡ b'/'
    → IsAbsolute str
Stripped-IsAbsolute text str s fits rooted =
    let size = length-take_le s.kept text s.within in
    let at = λ (i : ℕ) (lt : i < s.kept). take-at s.kept i text lt in
    record {
      text = take s.kept text;
      string = record {
        bytes = λ i lt. s.bytes i (omega (arith, lt, size)) ∙ sym (at i (omega (arith, lt, size)));
        nonzero = λ i lt.
            ap (λ c. c == 0) (at i (omega (arith, lt, size)))
            ∙ s.nonzero i (omega (arith, lt, size, s.within));
        ends = ap (λ i. get_or str i 0) size ∙ s.ends;
      };
      fits = omega (arith, size, s.within, fits);
      rooted = at 0 (s.some_bytes (text-nonempty text rooted)) ∙ rooted;
      last = λ lt.
          ap (λ n. get_or (take s.kept text) (n - 1) 0 == b'/') size
          ∙ ap (λ c. c == b'/') (at (s.kept - 1) (omega (arith, lt, size)))
          ∙ s.last (omega (arith, lt, size));
    }

-- A string is copied into `shell_cwd`.
copied-IsString :
    (text str cwd : List ℕ)
    → IsString text str
    → length cwd ≡ 256
    → length text < 256
    → IsString text (set (memcpy cwd 0 str 0 (length text)) (length text) 0)
copied-IsString text str cwd s size fits =
    let n = length text in
    let read = λ (i : ℕ). get_or-memcpy cwd 0 str 0 n i (omega (arith, size, fits)) in
    let at = λ (i : ℕ).
      get_or-set (memcpy cwd 0 str 0 n) n i 0
        (omega (arith, length-memcpy cwd 0 str 0 n, size, fits)) in
    record {
      bytes = λ i lt. ground (
        arith,
        at i,
        read i,
        ap (λ j. get_or str j 0) {x = 0 + (i - 0)} {y = i} (omega arith),
        s.bytes i lt,
        lt,
      );
      nonzero = s.nonzero;
      ends = ground (arith, at n);
    }

set_cwd_string-IsAbsolute :
    (str cwd : List ℕ)
    → IsAbsolute str
    → length cwd ≡ 256
    → IsAbsolute (shell_set_cwd_string (some str) cwd)
unfolding shell_set_cwd_string
set_cwd_string-IsAbsolute str cwd a size =
    let n = length a.text in
    let copied = memcpy cwd 0 str 0 n in
    let nonempty = text-nonempty a.text a.rooted in
    let whole : shell_strnlen str 255 ≡ n =
      IsString-strnlen a.text str 255 a.string ∙ ground (arith, a.fits) in
    let first : (get_or str 0 0 == 0) ≡ false =
      ap (λ c. c == 0) (a.string.bytes 0 nonempty) ∙ a.string.nonzero 0 nonempty in
    rw (whole, first)
      (Stripped-IsAbsolute a.text (shell_normalize_path (set copied n 0))
        (shell_normalize_path-Stripped a.text (set copied n 0)
          (copied-IsString a.text str cwd a.string size a.fits)
          (omega (arith, length-set copied n 0, length-memcpy cwd 0 str 0 n, size, a.fits)))
        a.fits a.rooted)

target-rooted : (w p : List ℕ) → get_or w 0 0 ≡ b'/' → get_or (target w p) 0 0 ≡ b'/'
unfolding target behind
target-rooted w [] e = e
target-rooted w (c ∷ p) e = elim (Bool-cases (c == b'/')) [
  | inl f ↦ rw f (ground (arith, f))
  | inr f ↦ rw f (elim (Bool-cases (needs_slash w)) [
    | inl g ↦ rw g (get_or-append w (b'/' ∷ c ∷ p) 0 ∙ ground (arith, text-nonempty w e, e))
    | inr g ↦ rw g (get_or-append w (c ∷ p) 0 ∙ ground (arith, text-nonempty w e, e))
  ])
]

target-fits : (w p : List ℕ) → length (target w p) < needed w p
unfolding target needed
target-fits w [] = omega arith
target-fits w (c ∷ p) = elim (Bool-cases (c == b'/')) [
  | inl f ↦ rw f (omega arith)
  | inr f ↦ rw f (omega (arith, length-behind w (c ∷ p)))
]

length-normalize_loop : (len : ℕ) (path : List ℕ) → length (normalize_loop len path) ≡ length path
unfolding normalize_loop
length-normalize_loop zero path = refl
length-normalize_loop (suc len) path =
    elim (Bool-cases (ltb 1 (suc len) && get_or path len 0 == b'/')) [
      | inl e ↦ rw e (length-normalize_loop len (set path len 0) ∙ length-set path len 0)
      | inr e ↦ rw e refl
    ]

length-set_cwd_string :
    (str cwd : List ℕ) → length (shell_set_cwd_string (some str) cwd) ≡ length cwd
unfolding shell_set_cwd_string shell_normalize_path
length-set_cwd_string str cwd = elim (Bool-cases (get_or str 0 0 == 0)) [
  | inl e ↦ rw e (length-set (set cwd 0 b'/') 1 0 ∙ length-set cwd 0 b'/')
  | inr e ↦
      let len = shell_strnlen str 255 in
      let copied = memcpy cwd 0 str 0 len in
      rw e (
        length-normalize_loop (strlen (set copied len 0)) (set copied len 0)
        ∙ length-set copied len 0
        ∙ length-memcpy cwd 0 str 0 len)
]

-- The new working directory, if there is one.
abbrev pub Moves : Outcome (List ℕ) → Type 0
Moves (ok cwd) = IsAbsolute cwd × (length cwd ≡ 256)
Moves fail = Unit
Moves fault = Unit

module _ {D : Type 0} (dev : Device D) where
  continue-Moves :
      (A : Type 0) (o : Outcome A) (f : A → M D (List ℕ)) (s : Sys D)
      → ((a : A) (s' : Sys D) → Moves (f a s').0)
      → Moves (continue o f s).0
  continue-Moves A (ok a) f s h = h a s
  continue-Moves A fail f s h = tt
  continue-Moves A fault f s h = tt

  bind-Moves :
      (A : Type 0) (m : M D A) (f : A → M D (List ℕ)) (s : Sys D)
      → ((a : A) (s' : Sys D) → Moves (f a s').0)
      → Moves ((m >>= f) s).0
  unfolding ◌>>=◌
  bind-Moves A m f s h = continue-Moves A (m s).0 f (m s).1 h

  enter-Moves :
      (w p cwd : List ℕ) (r : Option (List ℕ)) (s : Sys D)
      → length cwd ≡ 256
      → get_or w 0 0 ≡ b'/'
      → Resolves w p 256 r
      → Moves (enter dev cwd r s).0
  unfolding enter pure failed
  enter-Moves w p cwd none s size rooted res = tt
  enter-Moves w p cwd (some str) s size rooted res = bind-Moves _ _ _ s (λ stats s'.
      bind-Moves _ _ _ s' (λ u s''. (
        set_cwd_string-IsAbsolute str cwd
            (Stripped-IsAbsolute (target w p) str res.1 (omega (arith, target-fits w p, res.0))
              (target-rooted w p rooted))
            size,
        length-set_cwd_string str cwd ∙ size,
      )))

  -- For a working directory in an array of 256 bytes, a string that begins with a slash and ends with
  -- none unless it is the root: if `shell_set_cwd` is true, for any path and any file system, then the new
  -- working directory is such a string again, with its NUL within the array, which keeps its size.
  pub shell_set_cwd-Moves :
      (p resolved cwd : List ℕ) (path : Option (List ℕ)) (s : Sys D)
      → PathText p path
      → length resolved ≡ 256
      → length cwd ≡ 256
      → IsAbsolute cwd
      → Moves (shell_set_cwd dev resolved path cwd s).0
  unfolding shell_set_cwd
  shell_set_cwd-Moves p resolved cwd path s text room size a = bind-Moves _ _ _ s (λ fs s'.
      bind-Moves _ _ _ s' (λ u s''.
        enter-Moves a.text p cwd (shell_resolve_path cwd path resolved 256) s'' size a.rooted (
          shell_resolve_path-Resolves a.text cwd resolved 256 a.string room (omega arith) a.fits
            a.last p path text)))
