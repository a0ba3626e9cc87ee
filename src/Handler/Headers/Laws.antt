-- ===== src/Handler/Headers/Laws.antt =====
-- What the header rules leave under each name.
use peretum.Prelude.Bytes.{Bytes, codes, equal}
use peretum.Prelude.Dict.{lookup, member, lookup-assign, lookup-delete}
use peretum.Prelude.{
  ◌≡◌, refl, ap, ◌∙◌, Option, none, some, List, [], ◌∷◌, map, arith, if◌then◌else◌,
}
use peretum.Handler.Headers.{
  Header, Canon, header_set, header_del, set_all, del_all, HeadersConfig, apply_response_headers_to,
  upstream_identity_headers, sanitize_response_headers,
}

pub lookup-del_all :
    (canon : Canon) (k : Bytes) (removes : List Bytes) (h : Header)
    → lookup k (del_all canon removes h)
      ≡ (if member (map canon removes) k then none else lookup k h)
unfolding del_all
lookup-del_all canon k [] h = refl
lookup-del_all canon k (name ∷ removes) h = ground (
  arith,
  lookup-del_all canon k removes (header_del canon name h),
  lookup-delete (canon name) k h,
)

-- The last of the values added under a name, or what stood there.
abbrev pub last_added :
    Canon → Bytes → List (Bytes × Bytes) → Option (List Bytes) → Option (List Bytes)
last_added canon k [] old = old
last_added canon k ((name, v) ∷ adds) old =
    last_added canon k adds (if equal (canon name) k then some (v ∷ []) else old)

lookup-set_all :
    (canon : Canon) (k : Bytes) (adds : List (Bytes × Bytes)) (h : Header)
    → lookup k (set_all canon adds h) ≡ last_added canon k adds (lookup k h)
unfolding set_all
lookup-set_all canon k [] h = refl
lookup-set_all canon k ((name, v) ∷ adds) h =
    lookup-set_all canon k adds (header_set canon name v h)
    ∙ ap (last_added canon k adds) (lookup-assign (canon name) k (v ∷ []) h)

-- The response rules of a location leave no header that they remove, the last value added under
-- every other name that they add, and every other header as it was.
pub apply_response_headers_to_lem :
    (canon : Canon) (c : HeadersConfig) (k : Bytes) (h : Header)
    → lookup k (apply_response_headers_to canon (some c) h) ≡ (
        if member (map canon c.response_remove) k
        then none
        else last_added canon k c.response_add (lookup k h))
unfolding apply_response_headers_to
apply_response_headers_to_lem canon c k h =
    lookup-del_all canon k c.response_remove (set_all canon c.response_add h)
    ∙ ap (λ (o : Option (List Bytes)). if member (map canon c.response_remove) k then none else o)
        (lookup-set_all canon k c.response_add h)

-- Sanitized headers name this proxy as the server, have none of the other headers that disclose
-- the upstream, and are otherwise as they were.
pub sanitize_response_headers_lem :
    (canon : Canon) (k : Bytes) (h : Header)
    → lookup k (sanitize_response_headers canon h) ≡ (
        if equal (canon (codes "Server")) k
        then some (codes "peretum" ∷ [])
        else if member (map canon upstream_identity_headers) k
        then none
        else lookup k h)
unfolding sanitize_response_headers
sanitize_response_headers_lem canon k h =
    lookup-assign (canon (codes "Server")) k (codes "peretum" ∷ [])
      (del_all canon upstream_identity_headers h)
    ∙ ap
        (λ (o : Option (List Bytes)).
          if equal (canon (codes "Server")) k then some (codes "peretum" ∷ []) else o)
        (lookup-del_all canon k upstream_identity_headers h)
