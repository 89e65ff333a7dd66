-- ===== src/Http/Access.antt =====
-- Which requests RequireAPIKey lets through.
use rymevisor.Common.{
  ℕ, zero, suc, ◌≡◌, ◌≢◌, ◌↔◌, ◌∙◌, sym, ap, refl, ◌⊎◌, inl, inr, true, false, List, [], ◌∷◌, ◌++◌,
  if◌then◌else◌, take, drop, length, ltb, arith, Bool-cases,
}
use rymevisor.Net.{Text, text_eq}
use rymevisor.Net.Texts.{text_eq_iff}
use rymevisor.Net.Strings.{is_empty}
use rymevisor.Http.{
  Request, passed, replied, split_and_trim, extract_api_key, or_else, bearer, is_bearer, key_among,
  provided_key, is_health, require_api_key,
}

-- The key is one of the protocols, or one of them is the key as a bearer token.
abbrev pub Among : Text → List Text → Type 0
Among valid [] = ⊥
Among valid (p ∷ ps) = ((p ≡ valid) ⊎ (p ≡ bearer ++ valid)) ⊎ Among valid ps

take_rest : (n : ℕ) (t : Text) → take n t ++ drop n t ≡ t
take_rest zero t = refl
take_rest (suc n) [] = refl
take_rest (suc n) (c ∷ cs) = ap (λ (r : Text). c ∷ r) (take_rest n cs)

is_bearer_iff : (valid p : Text) → valid ≢ [] → (is_bearer valid p ≡ true) ↔ (p ≡ bearer ++ valid)
unfolding text_eq
is_bearer_iff valid p given = (sound, complete)
  where
    sound : is_bearer valid p ≡ true → p ≡ bearer ++ valid
    sound e =
        let front : take 7 p ≡ bearer = (text_eq_iff (take 7 p) bearer).0 (ground (arith, e)) in
        let back : drop 7 p ≡ valid = (text_eq_iff (drop 7 p) valid).0 (ground (arith, e)) in
        sym (take_rest 7 p) ∙ rw (front, back) refl

    long : (t : Text) → t ≢ [] → ltb 7 (length (bearer ++ t)) ≡ true
    long [] h = absurd (h refl)
    long (c ∷ cs) h = ground arith

    same : (t : Text) → text_eq t t ≡ true
    same t = (text_eq_iff t t).1 refl

    complete : p ≡ bearer ++ valid → is_bearer valid p ≡ true
    complete e = rw (e, long valid given, same valid) refl

-- The key that the loop finds is the server's, when one of the protocols offers it.
key_among_iff :
    (valid : Text) (ps : List Text) → valid ≢ [] → (key_among valid ps ≡ valid) ↔ Among valid ps
unfolding key_among
key_among_iff valid [] given = (λ e. absurd (given (sym e)), λ a. absurd a)
key_among_iff valid (p ∷ ps) given = elim (Bool-cases (text_eq p valid)) [
  | inl on ↦
      let here : p ≡ valid = (text_eq_iff p valid).0 on in (λ _. inl (inl here), λ _. rw on here)
  | inr off ↦ elim (Bool-cases (is_bearer valid p)) [
    | inl on ↦
        let here : p ≡ bearer ++ valid = (is_bearer_iff valid p given).0 on in
        (λ _. inl (inr here), λ _. rw (off, on) refl)
    | inr none_ ↦
        let other = key_among_iff valid ps given in
        (
          λ e. inr (other.0 (rw (off, none_) at e)),
          λ a. elim a [
            | inl (inl here) ↦ absurd (ground (arith, off, (text_eq_iff p valid).1 here))
            | inl (inr token) ↦
                absurd (ground (arith, none_, (is_bearer_iff valid p given).1 token))
            | inr later ↦ rw (off, none_) (other.1 later)
          ],
        )
  ]
]

-- The key that a request gives: in the header or the query, or, where these are empty, among the
-- websocket protocols.
abbrev pub Gives : Text → Request → Type 0
Gives valid r =
    (extract_api_key r ≡ valid)
    ⊎ ((extract_api_key r ≡ []) × Among valid (split_and_trim (r.header "Sec-WebSocket-Protocol")))

provided_key_iff :
    (valid : Text) (r : Request) → valid ≢ [] → (provided_key valid r ≡ valid) ↔ Gives valid r
unfolding provided_key
provided_key_iff valid r given = go (extract_api_key r)
  where
    protocols : List Text
    protocols = split_and_trim (r.header "Sec-WebSocket-Protocol")

    go :
        (k : Text)
        → (or_else k (key_among valid protocols) ≡ valid)
          ↔ ((k ≡ valid) ⊎ ((k ≡ []) × Among valid protocols))
    go [] = (
      λ e. inr (refl, (key_among_iff valid protocols given).0 e),
      λ g. elim g [
        | inl e ↦ absurd (given (sym e))
        | inr (_, among) ↦ (key_among_iff valid protocols given).1 among
      ],
    )
    go (c ∷ cs) = (λ e. inl e, λ g. elim g [ inl e ↦ e | inr (e, _) ↦ absurd (ground (arith, e)) ])

-- A request is admitted to a health path, or with the key of a server that has one.
abbrev pub IsAdmitted : Text → Request → Type 0
IsAdmitted valid r = (is_health r ≡ true) ⊎ ((valid ≢ []) × Gives valid r)

require_api_key_complete :
    (valid : Text) (r : Request) → IsAdmitted valid r → require_api_key valid r ≡ passed r
unfolding require_api_key
require_api_key_complete valid r (inl health) = rw health refl
require_api_key_complete valid r (inr (given, gives)) =
    let key = (provided_key_iff valid r given).1 gives in
    let equal = (text_eq_iff (provided_key valid r) valid).1 key in
    ground (arith, equal, given, nonempty valid given)
  where
    nonempty : (t : Text) → t ≢ [] → is_empty t ≡ false
    nonempty [] h = absurd (h refl)
    nonempty (c ∷ cs) h = refl

require_api_key_sound :
    (valid : Text) (r : Request) → require_api_key valid r ≡ passed r → IsAdmitted valid r
unfolding require_api_key
require_api_key_sound valid r e = elim (Bool-cases (is_health r)) [
  | inl health ↦ inl health
  | inr other ↦ inr (keyed valid (rw other at e))
]
  where
    keyed :
        (v : Text)
        → (if is_empty v
            then replied 500
            else if text_eq (provided_key v r) v
            then passed r
            else replied 401)
          ≡ passed r
        → (v ≢ []) × Gives v r
    keyed [] h = absurd (ground (arith, h))
    keyed (c ∷ cs) h =
        let given : c ∷ cs ≢ [] = λ n. ground (arith, n) in
        let equal : text_eq (provided_key (c ∷ cs) r) (c ∷ cs) ≡ true = ground (arith, h) in
        (given, (provided_key_iff (c ∷ cs) r given).0 ((text_eq_iff _ (c ∷ cs)).0 equal))

-- RequireAPIKey hands a request on exactly when it is for a health path, or the server has a key and
-- the request gives it: in the header or the query, or, where these are empty, as a websocket
-- protocol or its bearer token.
pub require_api_key_iff :
    (valid : Text) (r : Request) → (require_api_key valid r ≡ passed r) ↔ IsAdmitted valid r
require_api_key_iff valid r = (require_api_key_sound valid r, require_api_key_complete valid r)
