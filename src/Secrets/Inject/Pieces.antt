-- ===== src/Secrets/Inject/Pieces.antt =====
-- What injection does to a text: the matches are replaced, and nothing else changes.
use mathlib.Core.List.{append_assoc, append-nil}
use spiceai.Prelude.{
  ℕ, suc, ◌+◌, ◌-◌, ◌≤◌, ◌≡◌, refl, sym, ap, subst, ◌∙◌, true, none, some, List, [], ◌∷◌, ◌++◌,
  arith,
}
use spiceai.Prelude.Lists.{
  length, take, drop, length-append, take-length-append, drop-length-append, take-append-drop,
  length-take, length-drop, get_elem?,
}
use spiceai.Prelude.Text.{Text}
use spiceai.Secrets.Matcher.{Lexed, ReplacementMatch, seek, collect}
use spiceai.Secrets.Matcher.Fused.{fused, collect-eq-fused}
use spiceai.Secrets.Matcher.Spans.{
  Ordered, OrderedMatches, fused-Ordered, SpansAt, MatchesAt, fused-MatchesAt,
}
use spiceai.Secrets.Stores.{Secrets}
use spiceai.Secrets.Inject.{is_char_boundary, slice, replacement, inject_loop, inject_secrets}

-- A stretch of plain text, and the replacement that follows it.
pub record Piece : Type 0 where
  pub gap : Text
  pub raw : Text
  pub store_name : Text
  pub key : Text

-- The text that pieces and a last stretch make up.
abbrev pub source : List Piece → Text → Text
source [] tail = tail
source (p ∷ ps) tail = p.gap ++ (p.raw ++ source ps tail)

abbrev pub match_of : ℕ → Piece → ReplacementMatch
match_of lo p = record {
  store_name = p.store_name;
  key = p.key;
  span_start = lo + length p.gap;
  span_end = lo + length p.gap + length p.raw;
}

-- The matches that stand at the replacements of a text that begins at `lo`.
abbrev pub located : ℕ → List Piece → List ReplacementMatch
located lo [] = []
located lo (p ∷ ps) = match_of lo p ∷ located (lo + length p.gap + length p.raw) ps

-- The text with a value in the place of each replacement. The values are asked for by the match.
abbrev pub rendered : (ReplacementMatch → Text) → ℕ → List Piece → Text → Text
rendered value lo [] tail = tail
rendered value lo (p ∷ ps) tail =
    p.gap ++ (value (match_of lo p) ++ rendered value (lo + length p.gap + length p.raw) ps tail)

sub_self_add : (n k : ℕ) → n + k - n ≡ k
sub_self_add n k = omega arith

take_all : (b : Text) → take (length b) b ≡ b
take_all [] = refl
take_all (x ∷ b) = ap (◌∷◌ x) (take_all b)

-- A place in a text that a slice may begin or end at.
abbrev pub IsBoundary : Text → ℕ → Type 0
IsBoundary s i = is_char_boundary s i ≡ true

get-length : (s : Text) → get_elem? s (length s) ≡ none
get-length [] = refl
get-length (x ∷ s) = get-length s

IsBoundary-length : (s : Text) → IsBoundary s (length s)
unfolding is_char_boundary
IsBoundary-length [] = refl
IsBoundary-length (x ∷ s) = ground (arith, get-length s)

slice-between :
    (a b c s : Text)
    → a ++ (b ++ c) ≡ s
    → IsBoundary s (length a)
    → IsBoundary s (length a + length b)
    → slice s (length a) (length a + length b) ≡ some b
unfolding slice
slice-between a b c s e start end =
    let dropped : drop (length a) s ≡ b ++ c =
      subst (λ t. drop (length a) t ≡ b ++ c) e (drop-length-append a (b ++ c)) in
    ground (arith, start, end, dropped, take-length-append b c, sub_self_add (length a) (length b))

slice-end :
    (a b s : Text) → a ++ b ≡ s → IsBoundary s (length a) → slice s (length a) (length s) ≡ some b
slice-end a b s e start =
    let n : length a + length b ≡ length s = sym (length-append a b) ∙ ap length e in
    subst (λ k. slice s (length a) k ≡ some b) n
      (slice-between a b [] s (ap (λ t. a ++ t) (append-nil b) ∙ e) start
        (subst (IsBoundary s) (sym n) (IsBoundary-length s)))

inject_loop-rendered :
    (self : Secrets) (s : Text) (ps : List Piece) (done result tail : Text)
    → done ++ source ps tail ≡ s
    → IsBoundary s (length done)
    → MatchesAt (IsBoundary s) (located (length done) ps)
    → inject_loop self s (located (length done) ps) (length done) result
      ≡ some (result ++ rendered (replacement self) (length done) ps tail)
unfolding inject_loop
inject_loop-rendered self s [] done result tail h start m =
    rw (slice-end done tail s h start, inject_loop)
inject_loop-rendered self s (p ∷ ps) done result tail h start m =
    let read = (done ++ p.gap) ++ p.raw in
    let value = replacement self (match_of (length done) p) in
    let e : length read ≡ length done + length p.gap + length p.raw =
      length-append (done ++ p.gap) p.raw ∙ ap (λ n. n + length p.raw) (length-append done p.gap) in
    let whole : read ++ source ps tail ≡ s =
      append_assoc (done ++ p.gap) p.raw (source ps tail)
      ∙ append_assoc done p.gap (p.raw ++ source ps tail)
      ∙ h in
    let ih =
      inject_loop-rendered self s ps read (result ++ (p.gap ++ value)) tail whole
        (subst (IsBoundary s) (sym e) m.1)
        (subst (λ n. MatchesAt (IsBoundary s) (located n ps)) (sym e) m.2) in
    rw (slice-between done p.gap (p.raw ++ source ps tail) s h start m.0, inject_loop)
      (simp append_assoc at (rw e at ih))

OrderedMatches-le : (lo n : ℕ) (ms : List ReplacementMatch) → OrderedMatches lo n ms → lo ≤ n
OrderedMatches-le lo n [] o = o
OrderedMatches-le lo n (m ∷ ms) o = omega (arith, OrderedMatches-le m.span_end n ms o.2)

located-cons :
    (gap raw : Text) (m : ReplacementMatch) (lo : ℕ) (ps : List Piece) (ms : List ReplacementMatch)
    → lo + length gap ≡ m.span_start
    → m.span_start + length raw ≡ m.span_end
    → located m.span_end ps ≡ ms
    → located lo (record { gap = gap; raw = raw; store_name = m.store_name; key = m.key } ∷ ps)
      ≡ m ∷ ms
located-cons gap raw m lo ps ms e f l = rw (e, f, l)

-- Ordered matches cut the text into pieces.
cut :
    (ms : List ReplacementMatch) (lo : ℕ) (s : Text)
    → OrderedMatches lo (lo + length s) ms
    → (ps : List Piece) × (tail : Text) × (source ps tail ≡ s) × (located lo ps ≡ ms)
cut [] lo s o = ([], s, refl, refl)
cut (m ∷ ms) lo s o =
    let i = m.span_start - lo in
    let j = m.span_end - m.span_start in
    let behind = drop i s in
    let le = OrderedMatches-le m.span_end (lo + length s) ms o.2 in
    let li = length-drop i s in
    let lj = length-drop j behind in
    let n : m.span_end + length (drop j behind) ≡ lo + length s = omega arith in
    let (ps, tail, e, l) = cut ms m.span_end (drop j behind) (rw n o.2) in
    let lg : length (take i s) ≡ i = length-take i s (omega arith) in
    let lr : length (take j behind) ≡ j = length-take j behind (omega arith) in
    (
      record { gap = take i s; raw = take j behind; store_name = m.store_name; key = m.key } ∷ ps,
      tail,
      rw (e, take-append-drop) (take-append-drop i s),
      located-cons (take i s) (take j behind) m lo ps ms (omega arith) (omega arith) l,
    )

module _ (tokenize : Text → List Lexed) (self : Secrets) (param_str : Text) where
  -- For a lexer that reports its tokens from left to right, within the text and from one boundary of a
  -- character to another, `inject_secrets` never slices out of range or through a character. The text is cut into plain stretches and the stretches that the matches
  -- span, and the result is that text with the secret that the stores answer, or nothing where
  -- they have none, in the place of each match and the plain stretches unchanged.
  pub inject_secrets-rendered :
      Ordered 0 (length param_str) (tokenize param_str)
      → SpansAt (IsBoundary param_str) (tokenize param_str)
      → (ps : List Piece) × (tail : Text) × (source ps tail ≡ param_str)
        × (located 0 ps ≡ collect (suc (length (tokenize param_str))) (tokenize param_str))
        × (inject_secrets tokenize self param_str ≡ some (rendered (replacement self) 0 ps tail))
  unfolding inject_secrets is_char_boundary
  inject_secrets-rendered o b =
      let ts = tokenize param_str in
      let c = collect-eq-fused (suc (length ts)) ts (omega arith) in
      let z : 0 + length param_str ≡ length param_str = omega arith in
      let ordered = fused-Ordered ts seek 0 0 (length param_str) (omega arith) o in
      let at_boundaries = fused-MatchesAt (IsBoundary param_str) ts seek tt b in
      let (ps, tail, e, l) = cut (fused seek ts) 0 param_str (rw z ordered) in
      let loop =
        inject_loop-rendered self param_str ps [] [] tail e refl
          (subst (MatchesAt (IsBoundary param_str)) (sym l) at_boundaries) in
      (ps, tail, e, l ∙ sym c, rw c (rw l at loop))
