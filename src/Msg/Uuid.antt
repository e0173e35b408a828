-- ===== src/Msg/Uuid.antt =====
-- libklio/msg/msg-store.cpp: `format_uuid_string`, and the short form of a uuid.
use Prim.Native.Char.{Char, code}
use Prim.Native.String.{String, [], ◌∷◌, ◌++◌}
use Prim.Native.String.append
use libklio.Prelude.{
  ◌≡◌, refl, Bool-cases, inl, inr, ℕ, zero, suc, ◌+◌, subst, ap, ◌∙◌, ◌<◌, Bool, true, false, ◌||◌,
  ◌&&◌, not, ◌==◌, nat_eq, arith, if◌then◌else◌,
}
use libklio.Sensor.{Library}

abbrev is_break : ℕ → Bool
is_break i = i == 8 || (i == 12 || (i == 16 || i == 20))

-- The loop from the character `i` on.
unfoldable pub format_from : ℕ → String → String
format_from i [] = []
format_from i (c ∷ meter) =
    let rest = format_from (suc i) meter in if is_break i then "-" ∷ c ∷ rest else c ∷ rest

unfoldable pub format_uuid_string : String → String
unfolding format_from
format_uuid_string meter = format_from 0 meter

abbrev pub is_dash : Char → Bool
is_dash c = code c == 45

-- What Boost documents of `erase_all_copy(text, "-")`.
pub record IsErasing (l : Library) : Type 0 where
  pub nil : l.erase_all_copy [] "-" ≡ []
  pub cons :
      (c : Char) (text : String)
      → l.erase_all_copy (c ∷ text) "-"
        ≡ (if is_dash c then l.erase_all_copy text "-" else c ∷ l.erase_all_copy text "-")

abbrev pub has_no_dash : String → Bool
has_no_dash [] = true
has_no_dash (c ∷ text) = not (is_dash c) && has_no_dash text

abbrev pub size : String → ℕ
size [] = 0
size (c ∷ text) = suc (size text)

abbrev joined : String → String → String → String → String → String
joined a b c d e = a ++ (b ++ (c ++ (d ++ e)))

abbrev dashed : String → String → String → String → String → String
dashed a b c d e = a ++ ("-" ++ (b ++ ("-" ++ (c ++ ("-" ++ (d ++ ("-" ++ e)))))))

-- No dash stands before any of the `n` characters from `i` on.
abbrev no_break : ℕ → ℕ → Bool
no_break i zero = true
no_break i (suc n) = not (is_break i) && no_break (suc i) n

-- Characters before which no dash stands are copied.
format_from-plain :
    (i : ℕ) (text rest : String)
    → no_break i (size text) ≡ true
    → format_from i (text ++ rest) ≡ text ++ format_from (i + size text) rest
unfolding format_from
format_from-plain i [] rest h =
    rw (append.nil rest, append.nil (format_from (i + 0) rest))
      (ap (λ k. format_from k rest) (omega arith))
format_from-plain i (c ∷ text) rest h =
    let plain : is_break i ≡ false = ground (arith, h) in
    let later : no_break (suc i) (size text) ≡ true = ground (arith, h) in
    rw (append.cons c text rest, append.cons c text (format_from (i + suc (size text)) rest), plain)
      (ap (λ s. c ∷ s)
        (format_from-plain (suc i) text rest later
          ∙ ap (λ k. text ++ format_from k rest) (omega arith)))

-- A part before which a dash stands, with `n` characters after its first one.
format_from-part :
    (i n : ℕ) (part rest : String)
    → size part ≡ suc n
    → is_break i ≡ true
    → no_break (suc i) n ≡ true
    → format_from i (part ++ rest) ≡ "-" ++ (part ++ format_from (suc i + n) rest)
unfolding format_from
format_from-part i n [] rest h b k = absurd (ground arith)
format_from-part i n (c ∷ text) rest h b k =
    let same : size text ≡ n = ground (arith, h) in
    let tail = format_from (suc i + n) rest in
    let plain : no_break (suc i) (size text) ≡ true = rw same k in
    rw
      (
        append.cons c text rest,
        append.cons c text tail,
        append.cons "-" [] (c ∷ (text ++ tail)),
        append.nil (c ∷ (text ++ tail)),
        b,
      )
      (ap (λ s. "-" ∷ c ∷ s)
        (format_from-plain (suc i) text rest plain
          ∙ ap (λ k'. text ++ format_from (suc i + k') rest) same))

-- After the last dash every character is copied.
format_from-end : (i : ℕ) (text : String) → 20 < i → format_from i text ≡ text
unfolding format_from
format_from-end i [] h = refl
format_from-end i (c ∷ text) h =
    let plain : is_break i ≡ false = ground (arith, h) in
    rw plain (ap (λ s. c ∷ s) (format_from-end (suc i) text (omega (arith, h))))

format_from-last : (first : Char) (e : String) → format_from 20 (first ∷ e) ≡ "-" ++ (first ∷ e)
unfolding format_from
format_from-last first e =
    rw (append.cons "-" [] (first ∷ e), append.nil (first ∷ e), format_from-end 21 e (omega arith))
      refl

format_from-blocks :
    (a b c d : String) (first : Char) (e : String)
    → size a ≡ 8
    → size b ≡ 4
    → size c ≡ 4
    → size d ≡ 4
    → format_from 0 (joined a b c d (first ∷ e)) ≡ dashed a b c d (first ∷ e)
format_from-blocks a b c d first e ha hb hc hd =
    let first_part = format_from-plain 0 a (b ++ (c ++ (d ++ (first ∷ e)))) (rw ha refl) in
    rw
      (
        first_part,
        ha,
        format_from-part 8 3 b (c ++ (d ++ (first ∷ e))) hb refl refl,
        format_from-part 12 3 c (d ++ (first ∷ e)) hc refl refl,
        format_from-part 16 3 d (first ∷ e) hd refl refl,
        format_from-last first e,
      )
      refl

module _ (l : Library) (erasing : IsErasing l) where
  erase-format_from :
      (i : ℕ) (meter : String)
      → has_no_dash meter ≡ true
      → l.erase_all_copy (format_from i meter) "-" ≡ meter
  unfolding format_from
  erase-format_from i [] none_here = erasing.nil
  erase-format_from i (c ∷ meter) e =
      let plain : is_dash c ≡ false = ground (arith, e) in
      let rest = erase-format_from (suc i) meter (ground (arith, e)) in
      elim (Bool-cases (is_break i)) [
        | inl h ↦
            rw
              (
                h,
                erasing.cons "-" (c ∷ format_from (suc i) meter),
                erasing.cons c (format_from (suc i) meter),
                plain,
                rest,
              )
              refl
        | inr h ↦ rw (h, erasing.cons c (format_from (suc i) meter), plain, rest) refl
      ]

  -- An identifier of five parts, of which the first four have 8, 4, 4 and 4 characters and the last has
  -- at least one, and which has no dash: its text as a uuid is the parts with a dash between each two of
  -- them, and erasing the dashes gives the identifier back.
  pub erase-format_uuid_string :
      (a b c d : String) (first : Char) (e : String)
      → size a ≡ 8
      → size b ≡ 4
      → size c ≡ 4
      → size d ≡ 4
      → has_no_dash (joined a b c d (first ∷ e)) ≡ true
      → (format_uuid_string (joined a b c d (first ∷ e)) ≡ dashed a b c d (first ∷ e))
        × (l.erase_all_copy (dashed a b c d (first ∷ e)) "-" ≡ joined a b c d (first ∷ e))
  unfolding format_uuid_string
  erase-format_uuid_string a b c d first e ha hb hc hd plain =
      let blocks = format_from-blocks a b c d first e ha hb hc hd in
      (
        blocks,
        subst (λ text. l.erase_all_copy text "-" ≡ joined a b c d (first ∷ e)) blocks
            (erase-format_from 0 (joined a b c d (first ∷ e)) plain),
      )
