-- ===== src/Command/Find/Parse.antt =====
-- ParsePath of internal/utils/utils.go on the text of a query.
use fleare.Prelude.{ℕ, ◌≡◌, refl, ◌∙◌, false, none, some, [], ◌∷◌, ◌++◌, ◌==◌, All, arith}
use fleare.Prelude.Bytes.{Bytes, trim_prefix}
use fleare.Command.Find.{Op, ge, le, gt, lt, eq, ne, fold, op_text, ops, cut, first_cut, parse_path}

-- The byte does not occur.
abbrev pub Lacks : ℕ → Bytes → Type 0
Lacks b s = All (λ c. (b == c) ≡ false) s

-- No byte of the text begins an operator.
abbrev pub Plain : Bytes → Type 0
Plain s = Lacks b'>' s × Lacks b'<' s × Lacks b':' s × Lacks b'!' s × Lacks b'~' s

abbrev pub NoEquals : Bytes → Type 0
NoEquals [] = Unit
NoEquals (c ∷ cs) = (b'=' == c) ≡ false

-- An operator's first byte occurs nowhere.
cut-miss : (b : ℕ) (bs s : Bytes) → Lacks b s → cut (b ∷ bs) s ≡ none
unfolding cut trim_prefix
cut-miss b bs [] h = refl
cut-miss b bs (c ∷ cs) h = rw (h.0, cut-miss b bs cs h.1) refl

-- It first occurs at the operator.
cut-hit :
    (b : ℕ) (bs front back rest : Bytes)
    → Lacks b front
    → trim_prefix (b ∷ bs) rest ≡ some back
    → cut (b ∷ bs) (front ++ rest) ≡ some (front, back)
unfolding cut
cut-hit b bs [] back [] h t = ground (arith, t)
cut-hit b bs [] back (c ∷ cs) h t = rw t refl
cut-hit b bs (c ∷ cs) back rest h t =
    rw (cut-hit b bs cs back rest h.1 t) (unfold trim_prefix in rw h.0 refl)

-- A two-byte operator is not there if behind its first byte, which occurs once, there is no `=`.
cut-short :
    (b : ℕ) (front back : Bytes)
    → Lacks b front
    → NoEquals back
    → Lacks b back
    → cut (b ∷ b'=' ∷ []) (front ++ (b ∷ back)) ≡ none
unfolding cut trim_prefix
cut-short b [] [] h n l = ground arith
cut-short b [] (c ∷ cs) h n l = ground (arith, cut-miss b (b'=' ∷ []) (c ∷ cs))
cut-short b (c ∷ cs) back h n l = rw (h.0, cut-short b cs back h.1 n l) refl

Lacks-append : (b : ℕ) (xs ys : Bytes) → Lacks b xs → Lacks b ys → Lacks b (xs ++ ys)
Lacks-append b [] ys h k = k
Lacks-append b (x ∷ xs) ys h k = (h.0, Lacks-append b xs ys h.1 k)

no_angles :
    (s : Bytes) → Lacks b'>' s → Lacks b'<' s → first_cut ops s ≡ first_cut (eq ∷ ne ∷ fold ∷ []) s
unfolding first_cut
no_angles s h k =
    rw
      (
        cut-miss b'>' (b'=' ∷ []) s h,
        cut-miss b'<' (b'=' ∷ []) s k,
        cut-miss b'>' [] s h,
        cut-miss b'<' [] s k,
      )
      refl

-- The path behind its `$`.
parsed :
    (o : Op) (field value : Bytes)
    → Plain field
    → Plain value
    → NoEquals value
    → first_cut ops (field ++ (op_text o ++ value))
      ≡ record { field = field; op = some o; value = value }
unfolding first_cut
parsed ge field value f v n =
    rw (cut-hit b'>' (b'=' ∷ []) field value (b'>' ∷ b'=' ∷ value) f.0 (unfold trim_prefix in refl))
      refl
parsed le field value f v n =
    rw
      (
        cut-miss b'>' (b'=' ∷ []) (field ++ (b'<' ∷ b'=' ∷ value))
            (Lacks-append b'>' field _ f.0 (refl, (refl, v.0))),
        cut-hit b'<' (b'=' ∷ []) field value (b'<' ∷ b'=' ∷ value) f.1 (unfold trim_prefix in refl),
      )
      refl
parsed gt field value f v n =
    rw
      (
        cut-short b'>' field value f.0 n v.0,
        cut-miss b'<' (b'=' ∷ []) (field ++ (b'>' ∷ value))
            (Lacks-append b'<' field _ f.1 (refl, v.1)),
        cut-hit b'>' [] field value (b'>' ∷ value) f.0 (unfold trim_prefix in refl),
      )
      refl
parsed lt field value f v n =
    rw
      (
        cut-miss b'>' (b'=' ∷ []) (field ++ (b'<' ∷ value))
            (Lacks-append b'>' field _ f.0 (refl, v.0)),
        cut-short b'<' field value f.1 n v.1,
        cut-miss b'>' [] (field ++ (b'<' ∷ value)) (Lacks-append b'>' field _ f.0 (refl, v.0)),
        cut-hit b'<' [] field value (b'<' ∷ value) f.1 (unfold trim_prefix in refl),
      )
      refl
parsed eq field value f v n =
    no_angles (field ++ (b':' ∷ value)) (Lacks-append b'>' field _ f.0 (refl, v.0))
      (Lacks-append b'<' field _ f.1 (refl, v.1))
    ∙ rw (cut-hit b':' [] field value (b':' ∷ value) f.2 (unfold trim_prefix in refl)) refl
parsed ne field value f v n =
    no_angles (field ++ (b'!' ∷ value)) (Lacks-append b'>' field _ f.0 (refl, v.0))
      (Lacks-append b'<' field _ f.1 (refl, v.1))
    ∙ rw
        (
          cut-miss b':' [] (field ++ (b'!' ∷ value)) (Lacks-append b':' field _ f.2 (refl, v.2)),
          cut-hit b'!' [] field value (b'!' ∷ value) f.3 (unfold trim_prefix in refl),
        )
        refl
parsed fold field value f v n =
    no_angles (field ++ (b'~' ∷ value)) (Lacks-append b'>' field _ f.0 (refl, v.0))
      (Lacks-append b'<' field _ f.1 (refl, v.1))
    ∙ rw
        (
          cut-miss b':' [] (field ++ (b'~' ∷ value)) (Lacks-append b':' field _ f.2 (refl, v.2)),
          cut-miss b'!' [] (field ++ (b'~' ∷ value)) (Lacks-append b'!' field _ f.3 (refl, v.3)),
          cut-hit b'~' [] field value (b'~' ∷ value) f.4 (unfold trim_prefix in refl),
        )
        refl

-- A path that is written as `$`, a field, an operator and a value is parsed into these three, for each of
-- the seven operators, if no byte of the field or the value begins an operator and the value does
-- not begin with `=`.
pub parse_path-text :
    (o : Op) (field value : Bytes)
    → Plain field
    → Plain value
    → NoEquals value
    → parse_path (b'$' ∷ (field ++ (op_text o ++ value)))
      ≡ record { field = field; op = some o; value = value }
unfolding parse_path
parse_path-text o field value f v n = parsed o field value f v n
