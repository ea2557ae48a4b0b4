-- ===== src/Domain/Redaction/Masks.antt =====
-- Masking twice is masking once.
use rpa_group.Prelude.{
  suc, ◌≤◌, ◌<◌, String, false, List, [], ◌∷◌, ◌≡◌, ◌≢◌, refl, ◌==◌, ap, sym, subst, ap₂, ◌∙◌,
  arith, if◌then◌else◌, chars, leb, join2, prefix, suffix, split_on, join_with, eq-false_of_ne,
  Bool-cases, inl, inr, ◌⊎◌,
}
use rpa_group.Prelude.Text.Parts.{
  chars-join2, chars-prefix, chars-suffix, prefix-join2, suffix-join2, suffix_all, has_char,
  has_char-join2, has_char-prefix, has_char-suffix,
}
use rpa_group.Prelude.{length}
use rpa_group.Prelude.Text.Split.{AllFree, split_on-free, split_on-ne-nil, split_on-join_with}
use rpa_group.Domain.Redaction.{
  mask_identifier, Mode, plain, after_wxwork, after_corp, next_mode, mask_segments, mask_wecom_url,
}

mask_long :
    (s : String) → 8 < chars s → mask_identifier s ≡ join2 (prefix 4 s) (join2 "***" (suffix 4 s))
unfolding mask_identifier
mask_long s h = ground arith

mask_short : (s : String) → chars s ≤ 8 → mask_identifier s ≡ "***"
unfolding mask_identifier
mask_short s h = ground arith

chars_of_long : (s : String) → 8 < chars s → chars (mask_identifier s) ≡ 11
chars_of_long s h = rw (mask_long s h) (
    omega (
      arith,
      chars-join2 (prefix 4 s) (join2 "***" (suffix 4 s)),
      chars-join2 "***" (suffix 4 s),
      chars-prefix 4 s,
      chars-suffix 4 s,
    ))

-- A masked identifier has three characters or eleven.
pub chars-mask_identifier :
    (s : String) → chars (mask_identifier s) ≡ (if leb (chars s) 8 then 3 else 11)
chars-mask_identifier s = elim (Bool-cases (leb (chars s) 8)) [
  | inl short ↦ rw (short, mask_short s (ground arith)) refl
  | inr long ↦ rw (long) (chars_of_long s (ground arith))
]

prefix_of_mask : (s : String) → 8 < chars s → prefix 4 (mask_identifier s) ≡ prefix 4 s
prefix_of_mask s h = rw (mask_long s h) (
    subst (λ n. prefix n (join2 (prefix 4 s) (join2 "***" (suffix 4 s))) ≡ prefix 4 s)
      (chars-prefix 4 s (omega arith)) (prefix-join2 (prefix 4 s) (join2 "***" (suffix 4 s))))

suffix_of_mask : (s : String) → 8 < chars s → suffix 4 (mask_identifier s) ≡ suffix 4 s
suffix_of_mask s h =
    let four = chars-suffix 4 s (omega arith) in
    let tail = join2 "***" (suffix 4 s) in
    rw (mask_long s h) (
      suffix-join2 4 (prefix 4 s) tail (omega (arith, chars-join2 "***" (suffix 4 s)))
      ∙ suffix-join2 4 "***" (suffix 4 s) (omega arith)
      ∙ suffix_all 4 (suffix 4 s) (omega arith))

pub mask_identifier_idem : (s : String) → mask_identifier (mask_identifier s) ≡ mask_identifier s
mask_identifier_idem s = elim (Bool-cases (leb (chars s) 8)) [
  | inl short ↦ rw (mask_short s (ground arith)) (mask_short "***" (omega arith))
  | inr long ↦
      let h : 8 < chars s = ground arith in
      mask_long (mask_identifier s) (omega (arith, chars_of_long s h))
      ∙ ap₂ (λ u v. join2 u (join2 "***" v)) (prefix_of_mask s h) (suffix_of_mask s h)
      ∙ sym (mask_long s h)
]

-- Two identifiers of more than eight characters that agree in the first four and in the last four
-- are masked alike, and so are any two shorter ones: nothing else of them is shown.
pub mask_identifier_hides :
    (s t : String)
    → ((8 < chars s) × (8 < chars t) × (prefix 4 s ≡ prefix 4 t) × (suffix 4 s ≡ suffix 4 t))
      ⊎ ((chars s ≤ 8) × (chars t ≤ 8))
    → mask_identifier s ≡ mask_identifier t
mask_identifier_hides s t (inl (hs, ht, same_prefix, same_suffix)) =
    mask_long s hs
    ∙ ap₂ (λ u v. join2 u (join2 "***" v)) same_prefix same_suffix
    ∙ sym (mask_long t ht)
mask_identifier_hides s t (inr (hs, ht)) = mask_short s hs ∙ sym (mask_short t ht)

-- Masking brings in no slash.
pub has_char-mask_identifier :
    (s : String) → has_char b'/' s ≡ false → has_char b'/' (mask_identifier s) ≡ false
unfolding mask_identifier
has_char-mask_identifier s h = elim (Bool-cases (leb (chars s) 8)) [
  | inl short ↦ rw short
  | inr long ↦ rw long (
      ground (
        arith,
        has_char-join2 b'/' (prefix 4 s) (join2 "***" (suffix 4 s)),
        has_char-join2 b'/' "***" (suffix 4 s),
        has_char-prefix b'/' 4 s,
        has_char-suffix b'/' 4 s,
      ))
]

-- A masked segment is none of the two words that the loop looks for.
mask-ne : (s t : String) → (chars t ≡ 4) ⊎ (chars t ≡ 6) → (mask_identifier s == t) ≡ false
mask-ne s t h =
    eq-false_of_ne (mask_identifier s) t (λ e. ground (arith, ap chars e, chars-mask_identifier s))

mask_wecom_url-eq :
    (s : String) → mask_wecom_url s ≡ join_with "/" (mask_segments plain (split_on b'/' s))
unfolding mask_wecom_url
mask_wecom_url-eq s = refl

length_zero : (ws : List String) → length ws ≡ 0 → ws ≡ []
length_zero [] h = refl
length_zero (w ∷ ws) h = absurd (omega arith)

next_mode-mask : (s : String) → next_mode (mask_identifier s) ≡ plain
unfolding next_mode
next_mode-mask s = rw (mask-ne s "wxwork" (inr refl))

mask_segments_idem :
    (mode : Mode) (ws : List String)
    → mask_segments mode (mask_segments mode ws) ≡ mask_segments mode ws
unfolding mask_segments
mask_segments_idem plain [] = refl
mask_segments_idem after_corp [] = refl
mask_segments_idem after_wxwork [] = refl
mask_segments_idem plain (s ∷ rest) = ap (◌∷◌ s) (mask_segments_idem (next_mode s) rest)
mask_segments_idem after_corp (s ∷ rest) =
    rw (mask_identifier_idem s)
      (ap (◌∷◌ (mask_identifier s)) (mask_segments_idem (next_mode (mask_identifier s)) rest))
mask_segments_idem after_wxwork (s ∷ []) = rw (mask_identifier_idem s)
mask_segments_idem after_wxwork (s ∷ t ∷ rest) = elim (Bool-cases (s == "corp")) [
  | inl corp ↦ rw corp (rw corp (ap (◌∷◌ s) (mask_segments_idem after_corp (t ∷ rest))))
  | inr other ↦
      rw (other, next_mode-mask s)
        (rw (mask-ne s "corp" (inl refl), mask_identifier_idem s, next_mode-mask s)
          (ap (◌∷◌ (mask_identifier s)) (mask_segments_idem plain (t ∷ rest))))
]

mask_segments-free :
    (mode : Mode) (ws : List String) → AllFree b'/' ws → AllFree b'/' (mask_segments mode ws)
unfolding mask_segments
mask_segments-free plain [] f = tt
mask_segments-free after_corp [] f = tt
mask_segments-free after_wxwork [] f = tt
mask_segments-free plain (s ∷ rest) f = (f.0, mask_segments-free (next_mode s) rest f.1)
mask_segments-free after_corp (s ∷ rest) f =
    (has_char-mask_identifier s f.0, mask_segments-free (next_mode (mask_identifier s)) rest f.1)
mask_segments-free after_wxwork (s ∷ []) f = (has_char-mask_identifier s f.0, tt)
mask_segments-free after_wxwork (s ∷ t ∷ rest) f = elim (Bool-cases (s == "corp")) [
  | inl corp ↦ rw corp (f.0, mask_segments-free after_corp (t ∷ rest) f.1)
  | inr other ↦ rw other (
    has_char-mask_identifier s f.0,
    mask_segments-free (next_mode (mask_identifier s)) (t ∷ rest) f.1,
  )
]

-- Masking does not change the number of segments.
pub length-mask_segments :
    (mode : Mode) (ws : List String) → length (mask_segments mode ws) ≡ length ws
unfolding mask_segments
length-mask_segments plain [] = refl
length-mask_segments after_corp [] = refl
length-mask_segments after_wxwork [] = refl
length-mask_segments plain (s ∷ rest) = ap suc (length-mask_segments (next_mode s) rest)
length-mask_segments after_corp (s ∷ rest) =
    ap suc (length-mask_segments (next_mode (mask_identifier s)) rest)
length-mask_segments after_wxwork (s ∷ []) = refl
length-mask_segments after_wxwork (s ∷ t ∷ rest) = ground (
  arith,
  length-mask_segments after_corp (t ∷ rest),
  length-mask_segments (next_mode (mask_identifier s)) (t ∷ rest),
)

split-join : (ws : List String) → ws ≢ [] → AllFree b'/' ws → split_on b'/' (join_with "/" ws) ≡ ws
split-join [] h f = absurd (h refl)
split-join (w ∷ ws) h f = split_on-join_with "/" w ws f

-- The segments of a masked address are the masked segments.
pub split-mask_wecom_url :
    (s : String) → split_on b'/' (mask_wecom_url s) ≡ mask_segments plain (split_on b'/' s)
unfolding mask_wecom_url
split-mask_wecom_url s =
    let ws = split_on b'/' s in
    split-join (mask_segments plain ws)
      (λ e.
        split_on-ne-nil b'/' s (length_zero ws (sym (length-mask_segments plain ws) ∙ ap length e)))
      (mask_segments-free plain ws (split_on-free b'/' s))

-- Masking an address twice is masking it once.
pub mask_wecom_url_idem : (s : String) → mask_wecom_url (mask_wecom_url s) ≡ mask_wecom_url s
mask_wecom_url_idem s =
    mask_wecom_url-eq (mask_wecom_url s)
    ∙ ap (λ ws. join_with "/" (mask_segments plain ws)) (split-mask_wecom_url s)
    ∙ ap (join_with "/") (mask_segments_idem plain (split_on b'/' s))
    ∙ sym (mask_wecom_url-eq s)
