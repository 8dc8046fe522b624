-- ===== src/Shell/Recall.antt =====
-- The ring of lines of src/kernel/shell/shell.c recalls the newest lines.
use lux_kernel.Base.{
  ℕ, zero, suc, ◌+◌, ◌-◌, ◌%◌, ◌≤◌, ◌<◌, ◌≡◌, refl, sym, subst, ◌∙◌, ap, Bool, true, false, ◌||◌,
  Option, none, some, List, [], ◌∷◌, ltb, leb, ◌==◌, if◌then◌else◌, get_or, set, take, length,
  replicate, length-set, get_or-set_self, get_or-set_ne, arith, Bool-cases, inl, inr, min,
}
use lux_kernel.Strings.{memcpy}
use lux_kernel.Strings.Copy.{get_or-set, get_or-memcpy, length-memcpy}
use lux_kernel.Shell.Text.{shell_strnlen}
use lux_kernel.Shell.History.{History, no_line, history_add, history_get, has_content}
use lux_kernel.Bytes.{take-bytes, take-at, length-take_le}

-- The text of a line, as much of it as an entry can hold.
abbrev pub text_of : List ℕ → List ℕ
text_of line = take (shell_strnlen line 127) line

-- A text with something else than spaces and tabs.
unfoldable pub is_noted : List ℕ → Bool
is_noted [] = false
is_noted (c ∷ text) = if c == b' ' || c == 9 then is_noted text else true

-- The lines that are worth keeping, the newest first.
unfoldable pub remembered : List (List ℕ) → List (List ℕ) → List (List ℕ)
remembered [] past = past
remembered (line ∷ lines) past =
    remembered lines (if is_noted (text_of line) then text_of line ∷ past else past)

unfoldable pub add_all : List (List ℕ) → History → History
add_all [] h = h
add_all (line ∷ lines) h = add_all lines (history_add line h)

-- An entry holds a text, and the NUL behind it.
record Holds (text entry : List ℕ) : Type 0 where
  ends : shell_strnlen entry 127 ≡ length text
  same : take (length text) entry ≡ text
  nul : get_or entry (length text) 0 ≡ 0

record IsHistory (h : History) (past : List (List ℕ)) : Type 0 where
  rows : length h.entries ≡ 16
  room : (j : ℕ) → length (get_or h.entries j no_line) ≡ 128
  head_in : h.head < 16
  count_is : h.count ≡ min 16 (length past)
  recalls :
      (k : ℕ)
      → k < h.count
      → Holds (get_or past k []) (get_or h.entries ((h.head + 15 - k) % 16) no_line)

strnlen-le : (str : List ℕ) (m : ℕ) → shell_strnlen str m ≤ m
unfolding shell_strnlen
strnlen-le str zero = omega arith
strnlen-le [] (suc m) = omega arith
strnlen-le (c ∷ str) (suc m) = ground (arith, strnlen-le str m)

strnlen-length : (str : List ℕ) (m : ℕ) → shell_strnlen str m ≤ length str
unfolding shell_strnlen
strnlen-length str zero = omega arith
strnlen-length [] (suc m) = omega arith
strnlen-length (c ∷ str) (suc m) = ground (arith, strnlen-length str m)

strnlen-nonzero : (str : List ℕ) (m i : ℕ) → i < shell_strnlen str m → (get_or str i 0 == 0) ≡ false
unfolding shell_strnlen
strnlen-nonzero str zero i lt = elim lt [ ]
strnlen-nonzero [] (suc m) i lt = elim lt [ ]
strnlen-nonzero (c ∷ str) (suc m) zero lt = ground arith
strnlen-nonzero (c ∷ str) (suc m) (suc i) lt = ground (arith, strnlen-nonzero str m i)

-- The length is found at the first NUL.
strnlen-at :
    (str : List ℕ) (m n : ℕ)
    → n ≤ m
    → ((i : ℕ) → i < n → (get_or str i 0 == 0) ≡ false)
    → get_or str n 0 ≡ 0
    → shell_strnlen str m ≡ n
unfolding shell_strnlen
strnlen-at str zero n le h end = omega arith
strnlen-at [] (suc m) zero le h end = refl
strnlen-at [] (suc m) (suc n) le h end = absurd (ground (arith, h 0 (omega arith)))
strnlen-at (c ∷ str) (suc m) zero le h end = ground arith
strnlen-at (c ∷ str) (suc m) (suc n) le h end =
    let rest = strnlen-at str m n (omega arith) (λ i lt. h (suc i) (omega arith)) end in
    ground (arith, rest, h 0 (omega arith))

-- The bytes that `history_add` copies.
copied-Holds :
    (line old : List ℕ)
    → length old ≡ 128
    → let len = shell_strnlen line 127 in Holds (text_of line) (set (memcpy old 0 line 0 len) len 0)
copied-Holds line old size =
    let len = shell_strnlen line 127 in
    let small = strnlen-le line 127 in
    let copy = memcpy old 0 line 0 len in
    let copy_size = length-memcpy old 0 line 0 len in
    let whole = length-take_le len line (strnlen-length line 127) in
    let byte = λ (i : ℕ) (lt : i < len).
      let there : get_or (set copy len 0) i 0 ≡ get_or line i 0 = ground (
        arith,
        get_or-set copy len i 0 (omega (arith, copy_size, size, small)),
        get_or-memcpy old 0 line 0 len i (omega (arith, size, small)),
        lt,
        ap (λ j. get_or line j 0) {x = 0 + (i - 0)} {y = i} (omega arith),
      ) in
      there in
    let end : get_or (set copy len 0) len 0 ≡ 0 =
      ground (arith, get_or-set copy len len 0 (omega (arith, copy_size, size, small))) in
    record {
      ends =
          strnlen-at (set copy len 0) 127 len small
            (λ i lt. ap (λ b. b == 0) (byte i lt) ∙ strnlen-nonzero line 127 i lt) end
          ∙ sym whole;
      same =
          take-bytes (text_of line) (set copy len 0)
            (omega (arith, whole, length-set copy len 0, copy_size, size, small))
            (λ i lt.
              let lt' : i < len = omega (arith, lt, whole) in
              byte i lt' ∙ sym (take-at len i line lt'));
      nul = ap (λ k. get_or (set copy len 0) k 0) whole ∙ end;
    }

record_noted : (len : ℕ) (line : List ℕ) → has_content len line ≡ is_noted (take len line)
unfolding has_content is_noted
record_noted zero line = refl
record_noted (suc len) [] = refl
record_noted (suc len) (c ∷ line) = ground (arith, record_noted len line)

noted-some : (n : ℕ) (line : List ℕ) → is_noted (take n line) ≡ true → (n == 0) ≡ false
unfolding is_noted
noted-some zero line h = cc
noted-some (suc n) line h = ground arith

noted-starts :
    (line : List ℕ)
    → is_noted (text_of line) ≡ true
    → ((get_or line 0 0 == 0) ≡ false) × ((shell_strnlen line 127 == 0) ≡ false)
noted-starts line h =
    let some_len = noted-some (shell_strnlen line 127) line h in
    (strnlen-nonzero line 127 0 (ground (arith, some_len)), some_len)

get_or-replicate : (n j : ℕ) (x : List ℕ) → get_or (replicate n x) j x ≡ x
get_or-replicate zero j x = refl
get_or-replicate (suc n) zero x = refl
get_or-replicate (suc n) (suc j) x = get_or-replicate n j x

-- The ring with an entry more, which may take the place of the oldest.
added : List ℕ → History → History
added entry h = record {
  entries = set h.entries h.head entry;
  head = (h.head + 1) % 16;
  count = if ltb h.count 16 then h.count + 1 else h.count;
}

added-IsHistory :
    (text entry : List ℕ) (h : History) (past : List (List ℕ))
    → IsHistory h past
    → length entry ≡ 128
    → Holds text entry
    → IsHistory (added entry h) (text ∷ past)
unfolding added
added-IsHistory text entry h past v size new = record {
  rows = length-set h.entries h.head entry ∙ v.rows;
  room = λ j. elim (Bool-cases (j == h.head)) [
    | inl e ↦
        let at : j ≡ h.head = ground arith in
        rw (at, get_or-set_self h.entries h.head entry no_line (omega (arith, v.head_in, v.rows)))
          size
    | inr e ↦ rw (get_or-set_ne h.entries h.head j entry no_line (λ same. ground arith)) (v.room j)
  ];
  head_in = omega (arith, v.head_in);
  count_is = ground (arith, v.count_is);
  recalls = recall;
}
  where
    recall :
        (k : ℕ)
        → k < (if ltb h.count 16 then h.count + 1 else h.count)
        → Holds
            (get_or (text ∷ past) k [])
            (get_or (set h.entries h.head entry) (((h.head + 1) % 16 + 15 - k) % 16) no_line)
    recall zero lt =
        let at : ((h.head + 1) % 16 + 15 - 0) % 16 ≡ h.head = omega (arith, v.head_in) in
        rw (at, get_or-set_self h.entries h.head entry no_line (omega (arith, v.head_in, v.rows)))
          new
    recall (suc k) lt =
        let at : ((h.head + 1) % 16 + 15 - suc k) % 16 ≡ (h.head + 15 - k) % 16 =
          ground (arith, v.head_in, v.count_is) in
        let small : k < 15 = ground (arith, v.count_is) in
        let before : k < h.count = ground (arith, v.count_is) in
        rw
          (
            at,
            get_or-set_ne h.entries h.head ((h.head + 15 - k) % 16) entry no_line
                (λ same. omega (arith, v.head_in)),
          )
          (v.recalls k before)

add-IsHistory :
    (line : List ℕ) (h : History) (past : List (List ℕ))
    → IsHistory h past
    → IsHistory (history_add line h) (if is_noted (text_of line) then text_of line ∷ past else past)
unfolding history_add
add-IsHistory line h past v = elim (Bool-cases (is_noted (text_of line))) [
  | inl noted ↦
      let (first, some_len) = noted-starts line noted in
      let old = get_or h.entries h.head no_line in
      let len = shell_strnlen line 127 in
      rw (noted, first, some_len, record_noted len line, noted)
        (unfold added in
          added-IsHistory (text_of line) (set (memcpy old 0 line 0 len) len 0) h past v
            (length-set (memcpy old 0 line 0 len) len 0
              ∙ length-memcpy old 0 line 0 len
              ∙ v.room h.head)
            (copied-Holds line old (v.room h.head)))
  | inr blank ↦ rw blank (subst (λ s. IsHistory s past) (sym (unkept blank)) v)
]
  where
    unkept : is_noted (text_of line) ≡ false → history_add line h ≡ h
    unkept blank = elim (Bool-cases (get_or line 0 0 == 0)) [
      | inl e ↦ rw e refl
      | inr e ↦ rw e (elim (Bool-cases (shell_strnlen line 127 == 0)) [
        | inl f ↦ rw f refl
        | inr f ↦ rw (f, record_noted (shell_strnlen line 127) line, blank) refl
      ])
    ]

add_all-IsHistory :
    (lines : List (List ℕ)) (h : History) (past : List (List ℕ))
    → IsHistory h past
    → IsHistory (add_all lines h) (remembered lines past)
unfolding add_all remembered
add_all-IsHistory [] h past v = v
add_all-IsHistory (line ∷ lines) h past v =
    add_all-IsHistory lines (history_add line h) _ (add-IsHistory line h past v)

-- The history as it starts.
abbrev pub no_history : History
no_history = record { entries = replicate 16 no_line; count = 0; head = 0 }

no_history-IsHistory : IsHistory no_history []
no_history-IsHistory = record {
  rows = refl;
  room = every;
  head_in = omega arith;
  count_is = refl;
  recalls = λ k lt. elim lt [ ];
}
  where
    every : (j : ℕ) → length (get_or (replicate 16 no_line) j no_line) ≡ 128
    every j = ap length (get_or-replicate 16 j no_line)

-- What `history_get` gives: nothing, or an entry that holds the text and ends behind it.
abbrev pub Recalls : ℕ → List (List ℕ) → Option (List ℕ) → Type 0
Recalls k past none = min 16 (length past) ≤ k
Recalls k past (some entry) =
    (k < min 16 (length past))
    × (shell_strnlen entry 127 ≡ length (get_or past k []))
    × (take (length (get_or past k [])) entry ≡ get_or past k [])
    × (get_or entry (length (get_or past k [])) 0 ≡ 0)

-- After any lines were added to the empty history, `history_get k` is the newest but `k` of those with
-- something else than spaces and tabs, cut to 127 characters, with a NUL behind it; it gives nothing
-- where there are no more of these than `k`, or where `k` is 16 or more.
pub history_get-Recalls :
    (lines : List (List ℕ)) (k : ℕ)
    → Recalls k (remembered lines []) (history_get k (add_all lines no_history))
unfolding history_get
history_get-Recalls lines k =
    let h = add_all lines no_history in
    let v = add_all-IsHistory lines no_history [] no_history-IsHistory in
    elim (Bool-cases (leb h.count k)) [
      | inl e ↦ rw e (ground (arith, v.count_is))
      | inr e ↦
          let before : k < h.count = ground arith in
          let at : h.head + 16 - 1 - k ≡ h.head + 15 - k = omega arith in
          rw (e, at)
            (
              ground (arith, v.count_is),
              (v.recalls k before).ends,
              (v.recalls k before).same,
              (v.recalls k before).nul,
            )
    ]
