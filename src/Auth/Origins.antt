-- ===== src/Auth/Origins.antt =====
-- Which Referer headers pass the cross-site check, and which host names the rebinding guard.
use seawise_client.Prelude.{
  ◌≡◌, ◌≢◌, refl, ◌⊎◌, inl, inr, true, List, [], ◌∷◌, ◌++◌, arith, eqb, Bool-cases, length, ◌↔◌,
  eqb→eq, drop,
}
use seawise_client.Prelude.Bytes.{Bytes, lit, has_prefix}
use seawise_client.Auth.Hosts.{referer_matches_host, referer_under, delimited}

-- A path, a query or a fragment, or nothing.
pub data IsTail : Bytes → Type 0 where
  end : IsTail []
  path : (s : Bytes) → IsTail (b'/' ∷ s)
  query : (s : Bytes) → IsTail (b'?' ∷ s)
  fragment : (s : Bytes) → IsTail (b'#' ∷ s)

has_prefix-append : (p s : Bytes) → has_prefix (p ++ s) p ≡ true
unfolding has_prefix
has_prefix-append [] s = refl
has_prefix-append (c ∷ p) s = ground (arith, has_prefix-append p s)

drop-append : (p s : Bytes) → drop (length p) (p ++ s) ≡ s
drop-append [] s = refl
drop-append (c ∷ p) s = drop-append p s

split_prefix : (s p : Bytes) → has_prefix s p ≡ true → s ≡ p ++ drop (length p) s
unfolding has_prefix
split_prefix s [] h = refl
split_prefix [] (c ∷ p) h = cc
split_prefix (d ∷ s) (c ∷ p) h = ground (arith, split_prefix s p)

delimited-IsTail : (s : Bytes) → delimited s ≡ true → IsTail s
unfolding delimited
delimited-IsTail [] h = end
delimited-IsTail (c ∷ s) h = elim (Bool-cases (eqb c b'/')) [
  | inl e ↦ rw (eqb→eq c b'/' e) (path s)
  | inr e ↦ elim (Bool-cases (eqb c b'?')) [
    | inl f ↦ rw (eqb→eq c b'?' f) (query s)
    | inr f ↦ rw (eqb→eq c b'#' (ground arith)) (fragment s)
  ]
]

IsTail-delimited : {s : Bytes} → IsTail s → delimited s ≡ true
unfolding delimited
IsTail-delimited end = refl
IsTail-delimited (path s) = refl
IsTail-delimited (query s) = refl
IsTail-delimited (fragment s) = refl

-- `referer` is the scheme, the host and a tail.
abbrev pub IsUnder : Bytes → Bytes → Bytes → Type 0
IsUnder scheme host referer = (tail : Bytes) × (referer ≡ (scheme ++ host) ++ tail) × IsTail tail

abbrev AnyUnder : Bytes → Bytes → List Bytes → Type 0
AnyUnder host referer [] = ⊥
AnyUnder host referer (scheme ∷ schemes) =
    IsUnder scheme host referer ⊎ AnyUnder host referer schemes

IsUnder-one :
    (scheme host referer : Bytes)
    → has_prefix referer (scheme ++ host) ≡ true
    → delimited (drop (length (scheme ++ host)) referer) ≡ true
    → IsUnder scheme host referer
IsUnder-one scheme host referer h d = (
  drop (length (scheme ++ host)) referer,
  split_prefix referer (scheme ++ host) h,
  delimited-IsTail _ d,
)

referer_under-AnyUnder :
    (referer host : Bytes) (schemes : List Bytes)
    → referer_under referer host schemes ≡ true
    → AnyUnder host referer schemes
unfolding referer_under
referer_under-AnyUnder referer host [] h = cc
referer_under-AnyUnder referer host (scheme ∷ schemes) h =
    let ih = referer_under-AnyUnder referer host schemes in
    elim (Bool-cases (has_prefix referer (scheme ++ host))) [
      | inr e ↦ inr (ih (ground arith))
      | inl e ↦ elim (Bool-cases (delimited (drop (length (scheme ++ host)) referer))) [
        | inl d ↦ inl (IsUnder-one scheme host referer e d)
        | inr d ↦ inr (ih (ground arith))
      ]
    ]

AnyUnder-referer_under :
    (referer host : Bytes) (schemes : List Bytes)
    → AnyUnder host referer schemes
    → referer_under referer host schemes ≡ true
unfolding referer_under
AnyUnder-referer_under referer host [] h = absurd h
AnyUnder-referer_under referer host (scheme ∷ schemes) (inl (tail, e, t)) =
    rw (e, has_prefix-append, drop-append, IsTail-delimited t)
AnyUnder-referer_under referer host (scheme ∷ schemes) (inr h) =
    ground (arith, AnyUnder-referer_under referer host schemes h)

abbrev both_schemes : List Bytes
both_schemes = lit "http://" ∷ lit "https://" ∷ []

-- A Referer passes exactly if host and Referer are not empty and it is http:// or https://, the
-- host, and then nothing or a path, query or fragment: no longer host name that begins with the
-- host passes.
pub referer_matches_host_iff :
    (referer host : Bytes)
    → (referer_matches_host referer host ≡ true)
      ↔ (referer ≢ [])
        × (host ≢ [])
        × (IsUnder (lit "http://") host referer ⊎ IsUnder (lit "https://") host referer)
unfolding referer_matches_host
referer_matches_host_iff [] host = ((λ h. cc), λ h. absurd (h.0 refl))
referer_matches_host_iff (c ∷ r) [] = ((λ h. cc), λ h. absurd (h.1 refl))
referer_matches_host_iff (c ∷ r) (d ∷ host) = (
  (λ h. (
    (λ e. cc e),
    (λ e. cc e),
    two_cases (referer_under-AnyUnder (c ∷ r) (d ∷ host) both_schemes h),
  )),
  λ h. AnyUnder-referer_under (c ∷ r) (d ∷ host) both_schemes (two_back h.2),
)
  where
    two_cases : {A B : Type 0} → A ⊎ (B ⊎ ⊥) → A ⊎ B
    two_cases (inl a) = inl a
    two_cases (inr (inl b)) = inr b
    two_cases (inr (inr e)) = absurd e

    two_back : {A B : Type 0} → A ⊎ B → A ⊎ (B ⊎ ⊥)
    two_back (inl a) = inl a
    two_back (inr b) = inr (inl b)
