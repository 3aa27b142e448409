-- ===== src/Rpz/Zone.antt =====
-- The text of a zone: `render_rpz_zone` and `render_rpz_whitelist`. `now` is int(time.time()).
use mathlib.Core.List.{append_assoc}
use power_blockade.Base.{
  ℕ, ◌≡◌, refl, false, List, [], ◌∷◌, ◌++◌, arith, nat_eq, list_eq, contains, contains-append, All,
  map, ap, ◌∙◌,
}
use power_blockade.Base.Texts.{Text, codes, split_on}
use power_blockade.Base.Decimal.{show, show-no_newline, sorted, insert}

-- The lines that both headers begin with.
abbrev pub soa_line : ℕ → Text
soa_line now =
    codes "@ IN SOA localhost. hostmaster.localhost. " ++ (show now ++ codes " 3600 600 604800 300")

abbrev pub newline : Text
newline = codes "\n"

unfoldable pub header : ℕ → Text → Text
header now comment =
    codes "$TTL 300\n"
    ++ (soa_line now ++ (newline ++ (codes "@ IN NS localhost.\n" ++ (comment ++ newline))))

-- One line for each domain, behind each other.
unfoldable pub record_lines : Text → List Text → Text
record_lines target [] = []
record_lines target (d ∷ ds) = d ++ (target ++ (newline ++ record_lines target ds))

unfoldable pub render_rpz_zone : ℕ → List Text → Text → Text
unfolding header record_lines sorted
render_rpz_zone now domains policy_name =
    header now (codes "; policy: " ++ policy_name)
    ++ record_lines (codes ". CNAME .") (sorted domains)

unfoldable pub render_rpz_whitelist : ℕ → List Text → Text
unfolding header record_lines sorted
render_rpz_whitelist now domains =
    header now (codes "; whitelist (rpz-passthru)")
    ++ record_lines (codes ". CNAME rpz-passthru.") (sorted domains)

abbrev pub OneLine : Text → Type 0
OneLine s = contains s 10 ≡ false

split_nil : split_on 10 [] ≡ [] ∷ []
unfolding split_on
split_nil = refl

split-line : (a b : Text) → OneLine a → split_on 10 (a ++ (newline ++ b)) ≡ a ∷ split_on 10 b
unfolding split_on
split-line [] b h = refl
split-line (c ∷ a) b h = ground (arith, split-line a b)

append-OneLine : (a b : Text) → OneLine a → OneLine b → OneLine (a ++ b)
append-OneLine a b h k = ground (arith, contains-append a b 10)

split-record_lines :
    (target : Text) (ds : List Text)
    → OneLine target
    → All OneLine ds
    → split_on 10 (record_lines target ds) ≡ map (λ d. d ++ target) ds ++ ([] ∷ [])
unfolding record_lines
split-record_lines target [] t h = split_nil
split-record_lines target (d ∷ ds) t h =
    rw (← append_assoc d target (newline ++ record_lines target ds)) (
      split-line (d ++ target) (record_lines target ds) (append-OneLine d target h.0 t)
      ∙ ap (λ l. (d ++ target) ∷ l) (split-record_lines target ds t h.1))

abbrev pub header_lines : ℕ → Text → List Text
header_lines now comment =
    codes "$TTL 300" ∷ soa_line now ∷ codes "@ IN NS localhost." ∷ comment ∷ []

soa-OneLine : (now : ℕ) → OneLine (soa_line now)
soa-OneLine now =
    append-OneLine (codes "@ IN SOA localhost. hostmaster.localhost. ")
      (show now ++ codes " 3600 600 604800 300") refl
      (append-OneLine (show now) (codes " 3600 600 604800 300") (show-no_newline now) refl)

split-four :
    (a b c d rest : Text)
    → OneLine a
    → OneLine b
    → OneLine c
    → OneLine d
    → split_on 10
        ((a ++ (newline ++ (b ++ (newline ++ (c ++ (newline ++ (d ++ newline))))))) ++ rest)
      ≡ a ∷ b ∷ c ∷ d ∷ split_on 10 rest
split-four a b c d rest ha hb hc hd = simp append_assoc (
    split-line a _ ha
    ∙ ap (λ l. a ∷ l)
        (split-line b _ hb
          ∙ ap (λ l. b ∷ l) (split-line c _ hc ∙ ap (λ l. c ∷ l) (split-line d rest hd))))

All-insert : (x : Text) (ys : List Text) → OneLine x → All OneLine ys → All OneLine (insert x ys)
unfolding insert
All-insert x [] k h = (k, tt)
All-insert x (y ∷ ys) k h = ground (arith, All-insert x ys k h.1)

All-sorted : (xs : List Text) → All OneLine xs → All OneLine (sorted xs)
unfolding sorted
All-sorted [] h = tt
All-sorted (x ∷ xs) h = All-insert x (sorted xs) h.0 (All-sorted xs h.1)

split-header :
    (now : ℕ) (comment rest : Text)
    → OneLine comment
    → split_on 10 (header now comment ++ rest) ≡ header_lines now comment ++ split_on 10 rest
unfolding header
split-header now comment rest h =
    split-four (codes "$TTL 300") (soa_line now) (codes "@ IN NS localhost.") comment rest refl
      (soa-OneLine now) refl h

split-zone :
    (now : ℕ) (comment target : Text) (domains : List Text)
    → OneLine comment
    → OneLine target
    → All OneLine domains
    → split_on 10 (header now comment ++ record_lines target (sorted domains))
      ≡ header_lines now comment ++ (map (λ d. d ++ target) (sorted domains) ++ ([] ∷ []))
split-zone now comment target domains c t h =
    split-header now comment (record_lines target (sorted domains)) c
    ∙ ap (λ l. header_lines now comment ++ l)
        (split-record_lines target (sorted domains) t (All-sorted domains h))

-- If the name of the policy and the domains hold no line break, the lines of the blocking zone are
-- the four of the header, then "<domain>. CNAME ." for each domain in the order of `sorted`, and no
-- other, each ended by a line break.
pub split-render_zone :
    (now : ℕ) (domains : List Text) (policy_name : Text)
    → OneLine policy_name
    → All OneLine domains
    → split_on 10 (render_rpz_zone now domains policy_name)
      ≡ header_lines now (codes "; policy: " ++ policy_name)
        ++ (map (λ d. d ++ codes ". CNAME .") (sorted domains) ++ ([] ∷ []))
unfolding render_rpz_zone
split-render_zone now domains policy_name c h =
    split-zone now (codes "; policy: " ++ policy_name) (codes ". CNAME .") domains c refl h

-- The same of the whitelist, whose lines are "<domain>. CNAME rpz-passthru.".
pub split-render_whitelist :
    (now : ℕ) (domains : List Text)
    → All OneLine domains
    → split_on 10 (render_rpz_whitelist now domains)
      ≡ header_lines now (codes "; whitelist (rpz-passthru)")
        ++ (map (λ d. d ++ codes ". CNAME rpz-passthru.") (sorted domains) ++ ([] ∷ []))
unfolding render_rpz_whitelist
split-render_whitelist now domains h =
    split-zone now (codes "; whitelist (rpz-passthru)") (codes ". CNAME rpz-passthru.") domains refl
      refl h
