-- ===== src/Providers/Gateway/Keys.antt =====
-- The keys of the cache of ProviderGateway (agent/travel_agent/providers/gateway.py): what a key tells
-- of the request and of the tenant.
use Prim.Native.Char.{Char, code}
use Prim.Native.String.{◌++◌}
use text.Mathlib.TextLemmas.{append_assoc, append_cancel_left, nil-append, cons-append}
use mathlib.Core.Option.{some-injective}
use route_pilot.Common.{
  ℕ, String, Bool, true, false, ◌&&◌, not, eqb, ◌≡◌, ◌≢◌, refl, sym, ap, ◌∙◌, arith,
}
use route_pilot.Providers.Gateway.Types.{Capability, capability_text, CacheScope}
use route_pilot.Providers.Gateway.Cache.{cache_key}

-- No character of the text is ":".
unfoldable pub has_no_colon : String → Bool
has_no_colon String.[] = true
has_no_colon (String.◌∷◌ c s) = not (eqb (code c) 58) && has_no_colon s

abbrev tail_of : String → String
tail_of String.[] = String.[]
tail_of (String.◌∷◌ c s) = s

abbrev head_of : Char → String → Char
head_of d String.[] = d
head_of d (String.◌∷◌ c s) = c

colon-cons : (h : String) → ":" ++ h ≡ String.◌∷◌ ":" h
colon-cons h = cons-append ":" "" h ∙ ap (λ z. String.◌∷◌ ":" z) (nil-append h)

colon-tail : (b k : String) → has_no_colon (b ++ (":" ++ k)) ≡ false
unfolding has_no_colon
colon-tail String.[] k = ap has_no_colon (nil-append (":" ++ k) ∙ colon-cons k)
colon-tail (String.◌∷◌ c b) k =
    ap has_no_colon (cons-append c b (":" ++ k)) ∙ ground (arith, colon-tail b k)

-- What stands behind the first colon has another.
first_colon :
    (c : Char) (b h k : String)
    → "" ++ (":" ++ h) ≡ (String.◌∷◌ c b) ++ (":" ++ k)
    → has_no_colon h ≡ false
first_colon c b h k e =
    ap (λ z. has_no_colon (tail_of z))
      (sym (nil-append (":" ++ h) ∙ colon-cons h) ∙ (e ∙ cons-append c b (":" ++ k)))
    ∙ colon-tail b k

-- The last colon splits a text.
split_last :
    (a b h k : String)
    → has_no_colon h ≡ true
    → has_no_colon k ≡ true
    → a ++ (":" ++ h) ≡ b ++ (":" ++ k)
    → a ≡ b
split_last String.[] String.[] h k p q e = refl
split_last String.[] (String.◌∷◌ c b) h k p q e = absurd (ground (arith, p, first_colon c b h k e))
split_last (String.◌∷◌ c a) String.[] h k p q e =
    absurd (ground (arith, q, first_colon c a k h (sym e)))
split_last (String.◌∷◌ c a) (String.◌∷◌ d b) h k p q e =
    let both = sym (cons-append c a (":" ++ h)) ∙ (e ∙ cons-append d b (":" ++ k)) in
    ap (λ x. String.◌∷◌ x a) (ap (head_of c) both)
    ∙ ap (λ z. String.◌∷◌ d z) (split_last a b h k p q (ap tail_of both))

capability-has_no_colon : (c : Capability) → has_no_colon (capability_text c) ≡ true
unfolding capability_text has_no_colon
capability-has_no_colon Capability.place_search = refl
capability-has_no_colon Capability.geocode = refl
capability-has_no_colon Capability.route_matrix = refl
capability-has_no_colon Capability.opening_hours = refl
capability-has_no_colon Capability.weather = refl

tenant_keys :
    (c d : Capability) (h k t u : String)
    → has_no_colon h ≡ true
    → has_no_colon k ≡ true
    → cache_key c h CacheScope.tenant t ≡ cache_key d k CacheScope.tenant u
    → t ≡ u
unfolding cache_key
tenant_keys c d h k t u p q same =
    let bare = append_cancel_left "tenant:" _ _ (some-injective _ _ same) in
    let assoc : (s x : String) (e : Capability)
        → (s ++ (":" ++ capability_text e)) ++ (":" ++ x)
          ≡ s ++ (":" ++ (capability_text e ++ (":" ++ x))) =
      λ s x e.
        append_assoc s (":" ++ capability_text e) (":" ++ x)
        ∙ ap (λ z. s ++ z) (append_assoc ":" (capability_text e) (":" ++ x)) in
    split_last t u (capability_text c) (capability_text d) (capability-has_no_colon c)
      (capability-has_no_colon d)
      (split_last (t ++ (":" ++ capability_text c)) (u ++ (":" ++ capability_text d)) h k p q
        (assoc t h c ∙ (bare ∙ sym (assoc u k d))))

abbrev head_code : String → ℕ
head_code String.[] = 0
head_code (String.◌∷◌ c s) = code c

-- A tenant's own key is the key of no other tenant's request, and of no public one.
pub cache_key-tenant :
    (scope : CacheScope) (c d : Capability) (h k t u : String)
    → has_no_colon h ≡ true
    → has_no_colon k ≡ true
    → t ≢ u
    → cache_key c h scope t ≢ cache_key d k CacheScope.tenant u
unfolding cache_key
cache_key-tenant CacheScope.tenant c d h k t u p q other same =
    other (tenant_keys c d h k t u p q same)
cache_key-tenant CacheScope.disabled c d h k t u p q other same = absurd (ground arith)
cache_key-tenant CacheScope.public c d h k t u p q other same =
    absurd (public≢tenant _ _ (some-injective _ _ same))
  where
    public≢tenant : (x y : String) → "public" ++ x ≢ "tenant:" ++ y
    public≢tenant x y e = absurd (
        omega (
          arith,
          ap head_code (sym (cons-append "p" "ublic" x) ∙ (e ∙ cons-append "t" "enant:" y)),
        ))
