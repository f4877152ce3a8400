-- ===== src/Board/Template/Sections.antt =====
-- Cutting a template at its two markers.
use tukan.Prelude.{
  ℕ, ◌+◌, ◌-◌, ◌≡◌, refl, sym, ap, ap₂, ◌∙◌, Bool, some, List, [], ◌∷◌, ◌++◌, arith, length, take,
  drop, All, append_assoc, length-append,
}
use tukan.Text.{Text, units, starts_with, split, join, trim_end}
use tukan.Text.Split.{is_space-newline, IsFree, trim_end-space}
use tukan.Board.Template.{
  ParsedTemplate, empty_template, index_of, read_lines, desc_marker, criteria_marker, slice,
  section_text, parse_card_template,
}
use tukan.Board.Template.Lines.{
  flat, shift, join-flat, split-flat, IsClear, index_of-flat, shift-some, IsFree-IsClear,
  take-append, drop-append_more,
}

-- the template with the texts of its two sections
abbrev pub with_sections : Text → Text → ParsedTemplate → ParsedTemplate
with_sections description criteria result = record result {
  description = some description;
  acceptance_criteria = some criteria;
}

parse_at :
    (content : Text) (meta_only : Bool) (i j : ℕ)
    → index_of desc_marker content ≡ some i
    → index_of criteria_marker content ≡ some j
    → parse_card_template content meta_only
      ≡ with_sections
          (section_text (slice (i + length desc_marker) j content))
          (section_text (drop (j + length criteria_marker) content))
          (read_lines meta_only (split 10 (take i content)) empty_template)
unfolding parse_card_template
parse_at content meta_only i j d c = rw (d, c, parse_card_template) refl

module _ (ls : List Text) (description criteria : Text) (plain : All (IsFree 10) ls)
    (no_desc : All (IsClear desc_marker) ls) (no_criteria : All (IsClear criteria_marker) ls)
    (no_mark : IsFree b'#' description) (trimmed : trim_end description ≡ description)
    (trimmed_criteria : trim_end criteria ≡ criteria) where
  abbrev pub whole : Text
  whole =
      join (10 ∷ []) (ls ++ desc_marker ∷ description ∷ [] ∷ criteria_marker ∷ criteria ∷ [] ∷ [])

  abbrev before : Text
  before = flat ls

  abbrev body : Text
  body = 10 ∷ (description ++ 10 ∷ 10 ∷ [])

  abbrev first : Text
  first = desc_marker ++ body

  abbrev second : Text
  second = criteria_marker ++ (10 ∷ (criteria ++ 10 ∷ []))

  whole-eq : whole ≡ before ++ (first ++ second)
  unfolding join flat
  whole-eq =
      join-flat ls desc_marker (description ∷ [] ∷ criteria_marker ∷ criteria ∷ [] ∷ [])
      ∙ ap (λ t. before ++ t)
          (join-flat (desc_marker ∷ description ∷ [] ∷ []) criteria_marker (criteria ∷ [] ∷ []))

  desc_at : index_of desc_marker (before ++ (first ++ second)) ≡ some (length before + 0)
  unfolding index_of starts_with
  desc_at = index_of-flat desc_marker ls (first ++ second) no_desc ∙ shift-some (length before) 0

  clear : All (IsClear criteria_marker) (desc_marker ∷ description ∷ [] ∷ [])
  unfolding index_of starts_with
  clear = (
    λ t. refl,
    (
      IsFree-IsClear b'#' (units "# Acceptance Criteria") description (omega arith) no_mark,
      (λ t. refl, tt),
    ),
  )

  criteria_at :
      index_of criteria_marker (before ++ (first ++ second))
      ≡ some (length before + (length first + 0))
  unfolding index_of starts_with flat
  criteria_at =
      index_of-flat criteria_marker ls (first ++ second) no_criteria
      ∙ ap (shift (length before)) (
          index_of-flat criteria_marker (desc_marker ∷ description ∷ [] ∷ []) second clear
          ∙ shift-some (length first) 0)
      ∙ shift-some (length before) (length first + 0)

  description_text :
      section_text (
        slice
          (length before + 0 + length desc_marker)
          (length before + (length first + 0))
          (before ++ (first ++ second)))
      ≡ description
  description_text =
      let size : length before + (length first + 0) - (length before + 0 + length desc_marker)
          ≡ length body =
        omega arith in
      let start : length before + 0 + length desc_marker ≡ length before + 14 = omega arith in
      ap
        (λ n.
          section_text
            (take n (drop (length before + 0 + length desc_marker) (before ++ (first ++ second)))))
        size
      ∙ ap (λ n. section_text (take (length body) (drop n (before ++ (first ++ second))))) start
      ∙ ap (λ s. section_text (take (length body) s)) (drop-append_more 14 before (first ++ second))
      ∙ ap section_text (take-append body second)
      ∙ ap trim_end (sym (append_assoc description (10 ∷ []) (10 ∷ [])))
      ∙ trim_end-space (description ++ 10 ∷ []) 10 is_space-newline
      ∙ trim_end-space description 10 is_space-newline
      ∙ trimmed

  criteria_text :
      section_text (
        drop
          (length before + (length first + 0) + length criteria_marker)
          (before ++ (first ++ second)))
      ≡ criteria
  criteria_text =
      let start : length before + (length first + 0) + length criteria_marker
          ≡ length (before ++ first) + 22 =
        omega (arith, length-append before first) in
      ap (λ n. section_text (drop n (before ++ (first ++ second)))) start
      ∙ ap (λ s. section_text (drop (length (before ++ first) + 22) s))
          (sym (append_assoc before first second))
      ∙ ap section_text (drop-append_more 22 (before ++ first) second)
      ∙ trim_end-space criteria 10 is_space-newline
      ∙ trimmed_criteria

  header_lines : split 10 (take (length before + 0) (before ++ (first ++ second))) ≡ ls ++ [] ∷ []
  header_lines =
      let start : length before + 0 ≡ length before = omega arith in
      ap (λ n. split 10 (take n (before ++ (first ++ second)))) start
      ∙ ap (split 10) (take-append before (first ++ second))
      ∙ split-flat ls plain

  pub parse_sections :
      (meta_only : Bool)
      → parse_card_template whole meta_only
        ≡ with_sections description criteria (read_lines meta_only (ls ++ [] ∷ []) empty_template)
  parse_sections meta_only =
      ap (λ s. parse_card_template s meta_only) whole-eq
      ∙ parse_at (before ++ (first ++ second)) meta_only (length before + 0)
          (length before + (length first + 0)) desc_at criteria_at
      ∙ ap₂
          (λ d c. with_sections d c (
            read_lines meta_only (split 10 (take (length before + 0) (before ++ (first ++ second))))
              empty_template))
          description_text criteria_text
      ∙ ap (λ l. with_sections description criteria (read_lines meta_only l empty_template))
          header_lines
