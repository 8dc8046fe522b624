-- ===== src/Fs/Path/Split.antt =====
-- The components of a path, described by cutting it at its slashes, for `luxfs_tokenize_path` of
-- src/kernel/fs/fs.c.
use lux_kernel.Base.{
  ℕ, zero, suc, ◌≤◌, ◌≡◌, refl, sym, ap, ◌∙◌, true, false, ◌&&◌, some, List, [], ◌∷◌, arith, leb,
  ◌==◌, if◌then◌else◌, length, Bool-cases, inl, inr,
}
use lux_kernel.Fs.{Outcome, ok, fail}
use lux_kernel.Fs.Path.{name_max, slash, dot, skip_slashes, read_component, keep, is_dot}

-- A path cut at its slashes.
unfoldable pub extend : ℕ → List (List ℕ) → List (List ℕ)
extend c [] = (c ∷ []) ∷ []
extend c (w ∷ ws) = (c ∷ w) ∷ ws

unfoldable pub split : List ℕ → List (List ℕ)
unfolding extend
split [] = [] ∷ []
split (c ∷ cs) = let rest = split cs in if c == slash then [] ∷ rest else extend c rest

-- What is accepted with room for `d` more components: empty pieces are dropped, a piece of 32 bytes
-- or more is refused, `.` is dropped but wants room.
unfoldable pub accept : ℕ → List (List ℕ) → Outcome (List (List ℕ))
accept d [] = ok []
accept d ([] ∷ ws) = accept d ws
accept zero ((c ∷ w) ∷ ws) = fail
accept (suc d) ((c ∷ w) ∷ ws) =
    let same = accept (suc d) ws in
    let fewer = keep (c ∷ w) (accept d ws) in
    if leb name_max (length (c ∷ w))
    then fail
    else if length (c ∷ w) == 1 && c == dot
    then same
    else fewer

pub accept-empty : (d : ℕ) (ws : List (List ℕ)) → accept d ([] ∷ ws) ≡ accept d ws
unfolding accept
accept-empty zero ws = refl
accept-empty (suc d) ws = refl

pub split-slash : (c : ℕ) (cs : List ℕ) → (c == slash) ≡ true → split (c ∷ cs) ≡ [] ∷ split cs
unfolding split
split-slash c cs e = rw e

pub split-other :
    (c : ℕ) (cs : List ℕ) → (c == slash) ≡ false → split (c ∷ cs) ≡ extend c (split cs)
unfolding split
split-other c cs e = rw e

pub skip-slash :
    (c : ℕ) (cs : List ℕ) → (c == slash) ≡ true → skip_slashes (c ∷ cs) ≡ skip_slashes cs
unfolding skip_slashes
skip-slash c cs e = rw e

pub skip-other : (c : ℕ) (cs : List ℕ) → (c == slash) ≡ false → skip_slashes (c ∷ cs) ≡ c ∷ cs
unfolding skip_slashes
skip-other c cs e = rw e

pub skip-nil : skip_slashes [] ≡ []
unfolding skip_slashes
skip-nil = refl

pub read-nil : (len : ℕ) → read_component len [] ≡ some ([], [])
unfolding read_component
read-nil len = refl

pub split-nil : split [] ≡ [] ∷ []
unfolding split
split-nil = refl

pub accept-nil : (d : ℕ) → accept d [] ≡ ok []
unfolding accept
accept-nil zero = refl
accept-nil (suc d) = refl

pub accept-skip_slashes :
    (d : ℕ) (path : List ℕ) → accept d (split path) ≡ accept d (split (skip_slashes path))
accept-skip_slashes d [] = ap (λ p. accept d (split p)) (sym skip-nil)
accept-skip_slashes d (c ∷ cs) = elim (Bool-cases (c == slash)) [
  | inl e ↦
      ap (accept d) (split-slash c cs e)
      ∙ accept-empty d (split cs)
      ∙ accept-skip_slashes d cs
      ∙ ap (λ p. accept d (split p)) (sym (skip-slash c cs e))
  | inr e ↦ ap (λ p. accept d (split p)) (sym (skip-other c cs e))
]

-- What `skip_slashes` leaves is no longer than the path and does not begin with a slash.
pub skip_slashes-length :
    (path : List ℕ) (b : ℕ) (bs : List ℕ)
    → skip_slashes path ≡ b ∷ bs
    → ((b == slash) ≡ false) × (length (b ∷ bs) ≤ length path)
skip_slashes-length [] b bs e = absurd (let clash : b ∷ bs ≡ [] = sym e ∙ skip-nil in cc)
skip_slashes-length (c ∷ cs) b bs e = elim (Bool-cases (c == slash)) [
  | inl h ↦
      let (other, short) = skip_slashes-length cs b bs (sym (skip-slash c cs h) ∙ e) in
      (other, omega (arith, short))
  | inr h ↦
      let same : c ∷ cs ≡ b ∷ bs = sym (skip-other c cs h) ∙ e in
      let head : c ≡ b = cc in (sym (ap (λ x. x == slash) head) ∙ h, omega (arith, ap length same))
]

pub accept-full : (c : ℕ) (w : List ℕ) (ws : List (List ℕ)) → accept 0 ((c ∷ w) ∷ ws) ≡ fail
unfolding accept
accept-full c w ws = refl

pub accept-long :
    (d c : ℕ) (w : List ℕ) (ws : List (List ℕ))
    → leb name_max (length (c ∷ w)) ≡ true
    → accept (suc d) ((c ∷ w) ∷ ws) ≡ fail
unfolding accept
accept-long d c w ws e = rw (accept, e)

pub accept-dot :
    (d c : ℕ) (w : List ℕ) (ws : List (List ℕ))
    → leb name_max (length (c ∷ w)) ≡ false
    → is_dot (c ∷ w) ≡ true
    → accept (suc d) ((c ∷ w) ∷ ws) ≡ accept (suc d) ws
unfolding accept is_dot
accept-dot d c w ws e p = rw (accept, e, p)

pub accept-keep :
    (d c : ℕ) (w : List ℕ) (ws : List (List ℕ))
    → leb name_max (length (c ∷ w)) ≡ false
    → is_dot (c ∷ w) ≡ false
    → accept (suc d) ((c ∷ w) ∷ ws) ≡ keep (c ∷ w) (accept d ws)
unfolding accept is_dot
accept-keep d c w ws e p = rw (accept, e, p)
