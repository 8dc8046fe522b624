-- ===== src/Shell/Absolute.antt =====
-- What `shell_resolve_path` of src/kernel/shell/shell.c makes of a path and the working directory.
use lux_kernel.Base.{
  ℕ, ◌+◌, ◌-◌, ◌≤◌, ◌<◌, ◌≡◌, refl, sym, ◌∙◌, ap, true, false, not, Option, none, some, List, [],
  ◌∷◌, leb, ltb, ◌==◌, if◌then◌else◌, get_or, length, arith, subst, Bool-cases, inl, inr,
}
use lux_kernel.Strings.{memcpy}
use lux_kernel.Strings.Copy.{length-memcpy}
use lux_kernel.Shell.Text.{shell_strnlen, shell_normalize_path}
use lux_kernel.Shell.Cwd.{shell_resolve_path, join_path}
use lux_kernel.Shell.Resolved.{
  IsString, Stripped, IsString-strlen, IsString-strnlen, shell_normalize_path-Stripped,
  memcpy-IsString,
}
use lux_kernel.Shell.Joined.{behind, join_path-IsString, length-join_path, length-behind}

-- The path that is meant, before the slashes at its end are taken away.
unfoldable pub target : List ℕ → List ℕ → List ℕ
target w [] = w
target w (c ∷ p) = if c == b'/' then c ∷ p else behind w (c ∷ p)

-- The bytes that the result takes, at most.
unfoldable pub needed : List ℕ → List ℕ → ℕ
needed w [] = length w + 1
needed w (c ∷ p) = if c == b'/' then length (c ∷ p) + 1 else length w + length (c ∷ p) + 2

-- The text of a path, the empty one for a null pointer.
abbrev pub PathText : List ℕ → Option (List ℕ) → Type 0
PathText p none = p ≡ []
PathText p (some str) = IsString p str

abbrev pub Resolves : List ℕ → List ℕ → ℕ → Option (List ℕ) → Type 0
Resolves w p out_len none = out_len < needed w p
Resolves w p out_len (some str) = (needed w p ≤ out_len) × Stripped (target w p) str

no_bytes : IsString [] []
no_bytes = record { bytes = λ i lt. elim lt [ ]; nonzero = λ i lt. elim lt [ ]; ends = refl }

-- The working directory as it is, which has no slash at its end but the first.
cwd-Stripped :
    (w str : List ℕ)
    → IsString w str
    → (1 < length w → (get_or w (length w - 1) 0 == b'/') ≡ false)
    → Stripped w str
cwd-Stripped w str s last = record {
  kept = length w;
  within = omega arith;
  ends = s.ends;
  bytes = s.bytes;
  slashes = λ i ge lt. absurd (omega (arith, ge, lt));
  last = last;
  some_bytes = λ lt. lt;
  nonzero = s.nonzero;
}

module _ (w cwd out : List ℕ) (out_len : ℕ) (sw : IsString w cwd) (size : length out ≡ out_len)
    (some_room : 2 ≤ out_len) (cwd_fits : length w < out_len)
    (last : 1 < length w → (get_or w (length w - 1) 0 == b'/') ≡ false) where
  absolute-Resolves :
      (c : ℕ) (p path : List ℕ)
      → (c == b'/') ≡ true
      → IsString (c ∷ p) path
      → (c == 0) ≡ false
      → Resolves w (c ∷ p) out_len (
          let len = shell_strnlen path (out_len - 1) in
          if not (get_or path len 0 == 0)
          then none
          else some (shell_normalize_path (memcpy out 0 path 0 (len + 1))))
  unfolding target needed
  absolute-Resolves c p path e s nonzero =
      let len = IsString-strnlen (c ∷ p) path (out_len - 1) s in
      elim (Bool-cases (ltb (length (c ∷ p)) out_len)) [
        | inl f ↦
            let whole : shell_strnlen path (out_len - 1) ≡ length (c ∷ p) =
              len ∙ ground (arith, f) in
            let room : length (c ∷ p) < length out = ground (arith, f, size) in
            rw (whole, s.ends, e)
              (
                omega (arith, room, size),
                shell_normalize_path-Stripped (c ∷ p) (memcpy out 0 path 0 (length (c ∷ p) + 1))
                    (memcpy-IsString (c ∷ p) path out s room)
                    (omega (arith, room, length-memcpy out 0 path 0 (length (c ∷ p) + 1))),
              )
        | inr f ↦
            let cut : shell_strnlen path (out_len - 1) ≡ out_len - 1 =
              len ∙ ground (arith, f, some_room) in
            let inside : out_len - 1 < length (c ∷ p) = ground (arith, f, some_room) in
            let byte : (get_or path (out_len - 1) 0 == 0) ≡ false =
              ap (λ b. b == 0) (s.bytes (out_len - 1) inside) ∙ s.nonzero (out_len - 1) inside in
            rw (cut, byte, e) (omega (arith, inside))
      ]

  relative-Resolves :
      (c : ℕ) (p path : List ℕ)
      → (c == b'/') ≡ false
      → IsString (c ∷ p) path
      → Resolves w (c ∷ p) out_len (
          if ltb out_len (length w + length (c ∷ p) + 2)
          then none
          else some (shell_normalize_path (join_path cwd path out)))
  unfolding target needed
  relative-Resolves c p path e s = elim (Bool-cases (ltb out_len (length w + length (c ∷ p) + 2))) [
    | inl f ↦ rw (f, e) (ground (arith, f))
    | inr f ↦
        let room : length w + length (c ∷ p) + 2 ≤ length out = ground (arith, f, size) in
        rw (f, e)
          (
            ground (arith, f),
            shell_normalize_path-Stripped (behind w (c ∷ p)) (join_path cwd path out)
                (join_path-IsString w (c ∷ p) cwd path out sw s room)
                (omega (arith, room, length-join_path cwd path out, length-behind w (c ∷ p))),
          )
  ]

  some-Resolves :
      (p path : List ℕ)
      → IsString p path
      → Resolves w p out_len (shell_resolve_path cwd (some path) out out_len)
  unfolding shell_resolve_path target needed
  some-Resolves [] path s =
      let len : shell_strnlen cwd (out_len - 1) ≡ length w =
        IsString-strnlen w cwd (out_len - 1) sw ∙ ground (arith, cwd_fits) in
      let big : ltb out_len 2 ≡ false = ground (arith, some_room) in
      let fits : leb out_len (length w) ≡ false = ground (arith, cwd_fits) in
      rw (big, s.ends, len, fits)
        (
          omega (arith, cwd_fits),
          cwd-Stripped w (memcpy out 0 cwd 0 (length w + 1))
              (memcpy-IsString w cwd out sw (omega (arith, size, cwd_fits))) last,
        )
  some-Resolves (c ∷ p) path s =
      let big : ltb out_len 2 ≡ false = ground (arith, some_room) in
      let first : get_or path 0 0 ≡ c = s.bytes 0 (omega arith) in
      let nonzero : (c == 0) ≡ false = s.nonzero 0 (omega arith) in
      rw (big, first, nonzero)
        (elim (Bool-cases (c == b'/')) [
          | inl e ↦ rw e (absolute-Resolves c p path e s nonzero)
          | inr e ↦
              rw (e, IsString-strlen w cwd sw, IsString-strlen (c ∷ p) path s)
                (relative-Resolves c p path e s)
        ])

  -- For a result of two bytes or more, and a working directory that fits into it with its NUL and has no
  -- slash at its end, unless it is one byte long: `shell_resolve_path` is false exactly where the result is too small for the bytes that it
  -- asks for; otherwise the result is a string, an absolute path as it is, the working directory for an
  -- empty path or a null pointer, or else the working directory, a slash unless it ends with one, and the
  -- path, without the slashes at the end, of which the first byte stays.
  pub shell_resolve_path-Resolves :
      (p : List ℕ) (path : Option (List ℕ))
      → PathText p path
      → Resolves w p out_len (shell_resolve_path cwd path out out_len)
  shell_resolve_path-Resolves p none e =
      subst (λ q. Resolves w q out_len (shell_resolve_path cwd none out out_len)) (sym e)
        (unfold shell_resolve_path in some-Resolves [] [] no_bytes)
  shell_resolve_path-Resolves p (some path) s = some-Resolves p path s
