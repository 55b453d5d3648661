-- ===== src/Edit/Lines.antt =====
-- lineByLineReplace of internal/tools/edit_file.go: the block of lines that it finds is the only one.
use go_agent_claw.Prelude.{
  ℕ, zero, suc, ◌+◌, ◌<◌, ◌≡◌, refl, sym, ap, ◌∙◌, subst, inl, inr, true, false, ◌||◌, List, [],
  ◌∷◌, ◌++◌, map, arith, Bool-cases, length, length-take, take, drop, drop-drop, take-append-drop,
  ◌==◌, ltb,
}
use go_agent_claw.Edit.{
  Text, edited, push, split, join, text_eq, matches, count_matches, trim_space, wanted_lines,
  line_by_line_replace,
}

text_eq-eq : (a b : Text) → text_eq a b ≡ true → a ≡ b
unfolding text_eq
text_eq-eq [] [] h = refl
text_eq-eq [] (d ∷ ds) h = absurd (ground (arith, h))
text_eq-eq (c ∷ cs) [] h = absurd (ground (arith, h))
text_eq-eq (c ∷ cs) (d ∷ ds) h =
    let first : c ≡ d = ground (arith, h) in let rest = text_eq-eq cs ds (ground (arith, h)) in cc

matches-map :
    (wanted lines : List Text)
    → matches wanted lines ≡ true
    → map trim_space (take (length wanted) lines) ≡ wanted
unfolding matches
matches-map [] lines h = refl
matches-map (w ∷ wanted) [] h = absurd (ground (arith, h))
matches-map (w ∷ wanted) (line ∷ lines) h =
    let first = text_eq-eq (trim_space line) w (ground (arith, h)) in
    let rest = matches-map wanted lines (ground (arith, h)) in cc

-- The lines `wanted` match from place `p` of `lines` on, and from no other.
pub record MatchesOnlyAt (wanted lines : List Text) (p : ℕ) : Type 0 where
  pub inside : p < length lines
  pub here : matches wanted (drop p lines) ≡ true
  pub alone : (k : ℕ) → k < length lines → matches wanted (drop k lines) ≡ true → k ≡ p

count_matches_none :
    (wanted : List Text) (i : ℕ) (lines : List Text)
    → (count_matches wanted i lines).0 ≡ 0
    → (k : ℕ) → k < length lines
    → matches wanted (drop k lines) ≡ false
unfolding count_matches
count_matches_none wanted i [] h k less = absurd (omega (arith, less))
count_matches_none wanted i (line ∷ lines) h zero less = ground (arith, h)
count_matches_none wanted i (line ∷ lines) h (suc k) less =
    elim (Bool-cases (matches wanted (line ∷ lines))) [
      | inl e ↦ absurd (ground (arith, e, h))
      | inr e ↦
          count_matches_none wanted (i + 1) lines (ground (arith, e, h)) k (omega (arith, less))
    ]

first_alone :
    (wanted : List Text) (line : Text) (lines : List Text)
    → ((k : ℕ) → k < length lines → matches wanted (drop k lines) ≡ false)
    → (k : ℕ) → k < suc (length lines)
    → matches wanted (drop k (line ∷ lines)) ≡ true
    → k ≡ 0
first_alone wanted line lines none_later zero less h = refl
first_alone wanted line lines none_later (suc k) less h =
    absurd (ground (arith, none_later k (omega (arith, less)), h))

later_alone :
    (wanted : List Text) (line : Text) (lines : List Text) (p : ℕ)
    → matches wanted (line ∷ lines) ≡ false
    → ((k : ℕ) → k < length lines → matches wanted (drop k lines) ≡ true → k ≡ p)
    → (k : ℕ) → k < suc (length lines)
    → matches wanted (drop k (line ∷ lines)) ≡ true
    → k ≡ suc p
later_alone wanted line lines p first alone zero less h = absurd (ground (arith, first, h))
later_alone wanted line lines p first alone (suc k) less h =
    ap suc (alone k (omega (arith, less)) h)

count_matches_one :
    (wanted : List Text) (i : ℕ) (lines : List Text)
    → (count_matches wanted i lines).0 ≡ 1
    → (p : ℕ) × ((count_matches wanted i lines).1 ≡ i + p) × MatchesOnlyAt wanted lines p
unfolding count_matches
count_matches_one wanted i [] h = absurd (ground (arith, h))
count_matches_one wanted i (line ∷ lines) h = elim (Bool-cases (matches wanted (line ∷ lines))) [
  | inl e ↦
      let none_later : (count_matches wanted (i + 1) lines).0 ≡ 0 = ground (arith, e, h) in
      (
        0,
        ground (arith, e, none_later),
        record {
          inside = omega arith;
          here = e;
          alone =
              first_alone wanted line lines (count_matches_none wanted (i + 1) lines none_later);
        },
      )
  | inr e ↦
      let (p, start, only) = count_matches_one wanted (i + 1) lines (ground (arith, e, h)) in
      (
        suc p,
        ground (arith, e, start),
        record {
          inside = omega (arith, only.inside);
          here = only.here;
          alone = later_alone wanted line lines p e only.alone;
        },
      )
]

-- The only block of lines that matches is replaced by the new text, and every other line stays as it was.
pub record IsLineEdit (content wanted new out : Text) : Type 0 where
  pub before : List Text
  pub block : List Text
  pub after : List Text
  pub whole : content ≡ join (before ++ (block ++ after))
  pub matched : map trim_space block ≡ wanted_lines wanted
  pub replaced : out ≡ join (before ++ (new ∷ after))
  pub only : MatchesOnlyAt (wanted_lines wanted) (before ++ (block ++ after)) (length before)

join-push : (c : ℕ) (lines : List Text) → join (push c lines) ≡ c ∷ join lines
unfolding join
join-push c [] = refl
join-push c (line ∷ []) = refl
join-push c (line ∷ next ∷ lines) = refl

split-cons : (text : Text) → (line : Text) × (lines : List Text) × (split text ≡ line ∷ lines)
unfolding split
split-cons [] = ([], [], refl)
split-cons (c ∷ cs) = elim (Bool-cases (c == 10)) [
  | inl e ↦ ([], split cs, ground (arith, e))
  | inr e ↦ let (line, lines, same) = split-cons cs in (c ∷ line, lines, ground (arith, e, same))
]

join-split : (text : Text) → join (split text) ≡ text
unfolding split join
join-split [] = refl
join-split (c ∷ cs) = elim (Bool-cases (c == 10)) [
  | inl e ↦
      let (line, lines, same) = split-cons cs in
      let rest = join-split cs in ground (arith, e, same, rest)
  | inr e ↦ let pushed = join-push c (split cs) in rw e (pushed ∙ ap (λ t. c ∷ t) (join-split cs))
]

pub line_by_line_replace-IsLineEdit :
    (content wanted new out : Text)
    → line_by_line_replace content wanted new ≡ edited out
    → IsLineEdit content wanted new out
unfolding line_by_line_replace
line_by_line_replace-IsLineEdit content wanted new out h =
    let lines = split content in
    let block = wanted_lines wanted in
    let counted = count_matches block 0 lines in
    elim (Bool-cases (ltb (length lines) (length block) || counted.0 == 0)) [
      | inl e ↦ absurd (ground (arith, e, h))
      | inr e ↦ elim (Bool-cases (ltb 1 counted.0)) [
        | inl f ↦ absurd (ground (arith, e, f, h))
        | inr f ↦
            let once : counted.0 ≡ 1 = ground (arith, e, f) in
            let (p, place, only) = count_matches_one block 0 lines once in
            let start : counted.1 ≡ p = omega (arith, place) in
            let same : join (take counted.1 lines ++ (new ∷ drop (counted.1 + length block) lines))
                ≡ out =
              ground (arith, e, f, h) in
            let rest = take-append-drop (length block) (drop p lines) in
            let behind = drop-drop (length block) p lines in
            let all : take p lines
                  ++ (take (length block) (drop p lines) ++ drop (p + length block) lines)
                ≡ lines =
              ap (λ t. take p lines ++ (take (length block) (drop p lines) ++ t)) (sym behind)
              ∙ ap (λ t. take p lines ++ t) rest
              ∙ take-append-drop p lines in
            let size = length-take p lines in
            let here : p ≡ length (take p lines) = omega (arith, size, only.inside) in
            record {
              before = take p lines;
              block = take (length block) (drop p lines);
              after = drop (p + length block) lines;
              whole = sym (ap join all ∙ join-split content);
              matched = matches-map block (drop p lines) only.here;
              replaced = sym (
                  ap (λ k. join (take k lines ++ (new ∷ drop (k + length block) lines))) (sym start)
                  ∙ same);
              only =
                  subst (λ q. MatchesOnlyAt block q (length (take p lines))) (sym all)
                    (subst (MatchesOnlyAt block lines) here only);
            }
      ]
    ]
