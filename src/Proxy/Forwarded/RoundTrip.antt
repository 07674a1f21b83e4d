-- ===== src/Proxy/Forwarded/RoundTrip.antt =====
-- What `from_info` of src/proxy/forwarded_header.rs reads out of a header that `fmt` wrote.
use blahaj.Prelude.{
  ℕ, List, [], ◌∷◌, ◌++◌, ◌≡◌, ◌≢◌, refl, ap, ◌∙◌, none, some, arith, All, map, All-append,
}
use blahaj.Prelude.Text.{Str, codes}
use blahaj.Text.{strip_prefix, find_from, split, remove_from, remove, join}
use blahaj.Text.Laws.{Lacks}
use blahaj.Text.Split.{before-append, split_of_Lacks, split-append}
use blahaj.Proxy.Forwarded.{ForwardedHeader, for_eq, named, listed_fors, from_info, display}

abbrev pub equals : ℕ
equals = b'='

-- A text without "=" neither is nor begins "for=", also where a ";" or nothing follows it.
strip_for_semicolon : (u t : Str) → Lacks equals u → strip_prefix for_eq (u ++ b';' ∷ t) ≡ none
unfolding strip_prefix
strip_for_semicolon [] t h = refl
strip_for_semicolon (a ∷ []) t h = ground arith
strip_for_semicolon (a ∷ b ∷ []) t h = ground arith
strip_for_semicolon (a ∷ b ∷ c ∷ []) t h = ground arith
strip_for_semicolon (a ∷ b ∷ c ∷ d ∷ u) t h = ground arith

strip_for_end : (u : Str) → Lacks equals u → strip_prefix for_eq u ≡ none
unfolding strip_prefix
strip_for_end [] h = refl
strip_for_end (a ∷ []) h = ground arith
strip_for_end (a ∷ b ∷ []) h = ground arith
strip_for_end (a ∷ b ∷ c ∷ []) h = ground arith
strip_for_end (a ∷ b ∷ c ∷ d ∷ u) h = ground arith

find_from-skip :
    (u t : Str) → Lacks equals u → find_from for_eq (u ++ b';' ∷ t) ≡ find_from for_eq t
unfolding find_from
find_from-skip [] t h = rw (strip_for_semicolon [] t h, find_from)
find_from-skip (x ∷ u) t h =
    rw (strip_for_semicolon (x ∷ u) t h, find_from) (find_from-skip u t h.1)

remove_from_of_Lacks : (u : Str) → Lacks equals u → remove_from 0 for_eq u ≡ u
unfolding remove_from
remove_from_of_Lacks [] h = refl
remove_from_of_Lacks (x ∷ u) h =
    rw (strip_for_end (x ∷ u) h, remove_from) (ap (◌∷◌ x) (remove_from_of_Lacks u h.1))

remove-named : (u : Str) → Lacks equals u → remove for_eq (named u) ≡ u
unfolding remove remove_from strip_prefix
remove-named u h = remove_from_of_Lacks u h

remove-named_spaced : (u : Str) → Lacks equals u → remove for_eq (b' ' ∷ named u) ≡ b' ' ∷ u
unfolding remove remove_from strip_prefix
remove-named_spaced u h = ap (◌∷◌ b' ') (remove_from_of_Lacks u h)

-- A node of a header: its text has no ",", ";" or "=".
pub record IsNode (x : Str) : Type 0 where
  pub comma : Lacks b',' x
  pub semicolon : Lacks b';' x
  pub equal : Lacks equals x

-- A character that the pattern "for=" and the separators lack.
Lacks-named : (c : ℕ) (x : Str) → Lacks c for_eq → Lacks c x → Lacks c (named x)
Lacks-named c x h k = All-append (λ y. y ≢ c) for_eq x h k

abbrev pub spaced : Str → Str
spaced x = b' ' ∷ x

split-cons :
    (c x : ℕ) (s part : Str) (parts : List Str)
    → x ≢ c
    → split c s ≡ part ∷ parts
    → split c (x ∷ s) ≡ (x ∷ part) ∷ parts
unfolding split
split-cons c x s part parts ne e = ground (arith, e)

abbrev names : List Str → Str
names xs = join (codes ", ") (map named xs)

split-names :
    (x : Str) (xs : List Str)
    → All IsNode (x ∷ xs)
    → split b',' (names (x ∷ xs)) ≡ named x ∷ map (λ y. spaced (named y)) xs
unfolding join
split-names x [] (n, _) = split_of_Lacks b',' (named x) (Lacks-named b',' x (omega arith) n.comma)
split-names x (y ∷ ys) (n, h) =
    split-append b',' (named x) (b' ' ∷ names (y ∷ ys)) (Lacks-named b',' x (omega arith) n.comma)
    ∙ ap (◌∷◌ (named x)) (split-cons b',' b' ' _ _ _ (omega arith) (split-names y ys h))

Lacks-semicolon-names :
    (x : Str) (xs : List Str) → All IsNode (x ∷ xs) → Lacks b';' (names (x ∷ xs))
unfolding join
Lacks-semicolon-names x [] (n, _) = Lacks-named b';' x (omega arith) n.semicolon
Lacks-semicolon-names x (y ∷ ys) (n, h) =
    All-append (λ c. c ≢ b';') (named x) _ (Lacks-named b';' x (omega arith) n.semicolon)
      (omega arith, (omega arith, Lacks-semicolon-names y ys h))

names-begin : (x : Str) (xs : List Str) → (z : Str) × (names (x ∷ xs) ≡ for_eq ++ z)
unfolding join
names-begin x [] = (x, refl)
names-begin x (y ∷ ys) = (x ++ (codes ", " ++ names (y ∷ ys)), refl)

find_from-for :
    (x : Str) (xs : List Str) (t : Str)
    → find_from for_eq (names (x ∷ xs) ++ t) ≡ some (names (x ∷ xs) ++ t)
unfolding find_from strip_prefix
find_from-for x xs t = let (z, e) = names-begin x xs in rw e

find_from-display :
    (header : ForwardedHeader) (x : Str) (xs : List Str)
    → header.for_ ≡ x ∷ xs
    → Lacks equals header.by
    → (t : Str) × (find_from for_eq (display header) ≡ some (names (x ∷ xs) ++ b';' ∷ t))
unfolding display
find_from-display header x xs e h = (
  codes "host=" ++ (header.host ++ (codes ";proto=" ++ header.proto)),
  unfold find_from strip_prefix in
      (find_from-skip header.by _ h
        ∙ ap
            (λ ys.
              find_from for_eq (
                names ys ++ (codes ";host=" ++ (header.host ++ (codes ";proto=" ++ header.proto)))))
            e
        ∙ find_from-for x xs _),
)

map_removed :
    (xs : List Str)
    → All IsNode xs
    → map (remove for_eq) (map (λ y. spaced (named y)) xs) ≡ map spaced xs
map_removed [] h = refl
map_removed (x ∷ xs) (n, h) = cc (remove-named_spaced x n.equal, map_removed xs h)

-- The `for` list that is read from a header which `fmt` wrote, where no part of it has "=" and no
-- node "," or ";": the nodes of the header, each but the first with a space before it, and then
-- the peer.
pub from_info-display :
    (header : ForwardedHeader) (x : Str) (xs : List Str) (peer interface host proto : Str)
    → header.for_ ≡ x ∷ xs
    → All IsNode (x ∷ xs)
    → Lacks equals header.by
    → (from_info peer interface (display header) host proto).for_ ≡ x ∷ map spaced xs ++ peer ∷ []
unfolding from_info listed_fors
from_info-display header x xs peer interface host proto e nodes by =
    let (t, found) = find_from-display header x xs e by in
    rw (
      found,
      listed_fors,
      before-append b';' (names (x ∷ xs)) t (Lacks-semicolon-names x xs nodes),
      split-names x xs nodes,
      remove-named x nodes.0.equal,
      map_removed xs nodes.1,
    )
