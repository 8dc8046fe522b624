-- ===== src/Shell/Joined.antt =====
-- A relative path behind the working directory, in `shell_resolve_path` of src/kernel/shell/shell.c.
use lux_kernel.Base.{
  ℕ, ◌+◌, ◌-◌, ◌≤◌, ◌<◌, ◌≡◌, refl, ◌∙◌, ap, Bool, true, false, not, ◌||◌, List, [], ◌∷◌, ◌++◌, ltb,
  ◌==◌, if◌then◌else◌, get_or, set, length, length-set, length-append, arith, subst, Bool-cases,
  inl, inr,
}
use lux_kernel.Strings.{strlen, memcpy}
use lux_kernel.Strings.Copy.{get_or-set, get_or-memcpy, length-memcpy}
use lux_kernel.Bytes.{get_or-append, append-snoc}
use lux_kernel.Shell.Cwd.{join_path}
use lux_kernel.Shell.Resolved.{IsString, IsString-strlen}

-- Whether a slash goes between the working directory and a relative path.
abbrev pub needs_slash : List ℕ → Bool
needs_slash w = length w == 0 || not (get_or w (length w - 1) 0 == b'/')

unfoldable pub behind : List ℕ → List ℕ → List ℕ
behind w p = if needs_slash w then w ++ b'/' ∷ p else w ++ p

appended-IsString :
    (w p str at_front : List ℕ) (n : ℕ)
    → n ≡ length w
    → IsString p str
    → ((i : ℕ) → i < length w → get_or at_front i 0 ≡ get_or w i 0)
    → ((i : ℕ) → i < length w → (get_or w i 0 == 0) ≡ false)
    → length w + length p < length at_front
    → IsString (w ++ p) (memcpy at_front n str 0 (length p + 1))
appended-IsString w p str at_front n n_is s front nonzero room =
    let read =
      λ (i : ℕ). get_or-memcpy at_front n str 0 (length p + 1) i (omega (arith, n_is, room)) in
    let size = length-append w p in
    let text = λ (i : ℕ). get_or-append w p i in
    let same = λ (i : ℕ).
      ap (λ j. get_or str j 0) {x = 0 + (i - n)} {y = i - length w} (omega (arith, n_is)) in
    record {
      bytes = λ i lt. elim (Bool-cases (ltb i (length w))) [
        | inl e ↦ ground (arith, read i, text i, front i (ground (arith, e)), n_is, e)
        | inr e ↦ ground (
          arith,
          read i,
          text i,
          same i,
          s.bytes (i - length w) (ground (arith, e, lt, size)),
          n_is,
          e,
          lt,
          size,
        )
      ];
      nonzero = λ i lt. elim (Bool-cases (ltb i (length w))) [
        | inl e ↦ ground (arith, text i, nonzero i (ground (arith, e)), e)
        | inr e ↦ ground (arith, text i, s.nonzero (i - length w) (ground (arith, e, lt, size)), e)
      ];
      ends = ground (
        arith,
        read (length (w ++ p)),
        same (length (w ++ p)),
        ap (λ j. get_or str j 0) {x = length (w ++ p) - length w} {y = length p}
            (omega (arith, size)),
        s.ends,
        n_is,
        size,
      );
    }

-- The working directory at the front of the result.
get_or-front :
    (w cwd out : List ℕ) (i : ℕ)
    → IsString w cwd
    → length w ≤ length out
    → i < length w
    → get_or (memcpy out 0 cwd 0 (length w)) i 0 ≡ get_or w i 0
get_or-front w cwd out i s room lt = ground (
  arith,
  get_or-memcpy out 0 cwd 0 (length w) i (omega (arith, room)),
  ap (λ j. get_or cwd j 0) {x = 0 + (i - 0)} {y = i} (omega arith),
  s.bytes i lt,
)

front-needs_slash :
    (w cwd out : List ℕ)
    → IsString w cwd
    → length w ≤ length out
    → (length w == 0 || not (get_or (memcpy out 0 cwd 0 (length w)) (length w - 1) 0 == b'/'))
      ≡ needs_slash w
front-needs_slash w cwd out s room = elim (Bool-cases (length w == 0)) [
  | inl e ↦ rw e refl
  | inr e ↦ rw (get_or-front w cwd out (length w - 1) s room (ground (arith, e))) refl
]

-- The front with a slash behind it.
get_or-slashed :
    (w copied : List ℕ) (i : ℕ)
    → length w < length copied
    → ((j : ℕ) → j < length w → get_or copied j 0 ≡ get_or w j 0)
    → i < length (w ++ b'/' ∷ [])
    → get_or (set copied (length w) b'/') i 0 ≡ get_or (w ++ b'/' ∷ []) i 0
get_or-slashed w copied i room front lt = elim (Bool-cases (ltb i (length w))) [
  | inl e ↦ ground (
    arith,
    get_or-set copied (length w) i b'/' room,
    get_or-append w (b'/' ∷ []) i,
    front i (ground (arith, e)),
    e,
  )
  | inr e ↦
      let at_end : i ≡ length w = ground (arith, e, lt, length-append w (b'/' ∷ [])) in
      ground (
        arith,
        get_or-set copied (length w) i b'/' room,
        get_or-append w (b'/' ∷ []) i,
        ap {B = ℕ} (λ j. get_or (b'/' ∷ []) j 0) {x = i - length w} {y = 0} (omega (arith, at_end)),
        at_end,
        e,
      )
]

nonzero-slashed :
    (w : List ℕ) (i : ℕ)
    → ((j : ℕ) → j < length w → (get_or w j 0 == 0) ≡ false)
    → i < length (w ++ b'/' ∷ [])
    → (get_or (w ++ b'/' ∷ []) i 0 == 0) ≡ false
nonzero-slashed w i nonzero lt = elim (Bool-cases (ltb i (length w))) [
  | inl e ↦ ground (arith, get_or-append w (b'/' ∷ []) i, nonzero i (ground (arith, e)), e)
  | inr e ↦
      let at_end : i ≡ length w = ground (arith, e, lt, length-append w (b'/' ∷ [])) in
      ground (
        arith,
        get_or-append w (b'/' ∷ []) i,
        ap {B = ℕ} (λ j. get_or (b'/' ∷ []) j 0) {x = i - length w} {y = 0} (omega (arith, at_end)),
        e,
      )
]

pub join_path-IsString :
    (w p cwd path out : List ℕ)
    → IsString w cwd
    → IsString p path
    → length w + length p + 2 ≤ length out
    → IsString (behind w p) (join_path cwd path out)
unfolding join_path behind
join_path-IsString w p cwd path out sw sp room =
    let copied = memcpy out 0 cwd 0 (length w) in
    let size = length-memcpy out 0 cwd 0 (length w) in
    let fits : length w ≤ length out = omega (arith, room) in
    let front = λ (i : ℕ) (lt : i < length w). get_or-front w cwd out i sw fits lt in
    let snoc = length-append w (b'/' ∷ []) in
    let test = front-needs_slash w cwd out sw fits in
    rw (IsString-strlen w cwd sw, IsString-strlen p path sp, test)
      (elim (Bool-cases (needs_slash w)) [
        | inl e ↦ rw e (
            subst
              (λ t.
                IsString t
                  (memcpy (set copied (length w) b'/') (length w + 1) path 0 (length p + 1)))
              (append-snoc w b'/' p)
              (appended-IsString (w ++ b'/' ∷ []) p path (set copied (length w) b'/') (length w + 1)
                (omega (arith, snoc)) sp
                (λ i lt. get_or-slashed w copied i (omega (arith, size, room)) front lt)
                (λ i lt. nonzero-slashed w i sw.nonzero lt)
                (omega (arith, snoc, length-set copied (length w) b'/', size, room))))
        | inr e ↦ rw e (
            appended-IsString w p path copied (length w) refl sp front sw.nonzero
              (omega (arith, size, room)))
      ])

pub length-join_path : (cwd path out : List ℕ) → length (join_path cwd path out) ≡ length out
unfolding join_path
length-join_path cwd path out =
    let n = strlen cwd in
    let copied = memcpy out 0 cwd 0 n in
    let slash = n == 0 || not (get_or copied (n - 1) 0 == b'/') in
    let pos = if slash then n + 1 else n in
    length-memcpy (if slash then set copied n b'/' else copied) pos path 0 (strlen path + 1)
    ∙ length-if slash (set copied n b'/') copied (length-set copied n b'/')
    ∙ length-memcpy out 0 cwd 0 n
  where
    length-if :
        (b : Bool) (xs ys : List ℕ)
        → length xs ≡ length ys
        → length (if b then xs else ys) ≡ length ys
    length-if true xs ys e = e
    length-if false xs ys e = refl

pub length-behind : (w p : List ℕ) → length (behind w p) ≤ length w + length p + 1
unfolding behind
length-behind w p = elim (Bool-cases (needs_slash w)) [
  | inl e ↦ rw e (omega (arith, length-append w (b'/' ∷ p)))
  | inr e ↦ rw e (omega (arith, length-append w p))
]
