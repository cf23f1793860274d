-- ===== src/Browser/Routes/Confined.antt =====
-- The routes that a browser may use lie below a few roots, and have one of four methods.
use mathlib.Core.Bool.{false≢true}
use lotor_go.Common.{
  ℕ, ◌≡◌, refl, ap, ◌∙◌, Bool, true, false, not, ◌&&◌, ◌||◌, Option, none, some, ◌++◌, ltb, leb,
  ◌==◌, if◌then◌else◌, length, and-eq-true, arith,
}
use lotor_go.Common.Bytes.{Bytes, ascii, bytes_eq, bytes_eq_iff}
use lotor_go.Common.Text.{has_prefix, trim_prefix, split_at, add_to_first}
use lotor_go.Browser.{Library, route_prefix}
use lotor_go.Browser.Routes.{
  is_get, is_post, is_put, is_delete, part, at, is, id_at, stream_route, credential_route,
  payload_route, binding_route, link_route, action_route, below_resource, my_catalog_route,
  claim_route, key_route, invitation_route, part_route, fixed_route, valid_part, split_route,
  or_split, resource_route,
}

unfoldable pub known_method : Bytes → Bool
known_method m = is_get m || (is_post m || (is_put m || is_delete m))

-- The first part of a path behind the prefix.
pub root : Bytes → Bytes
unfolding at part
root path = part (split_at b'/' (trim_prefix (at (ascii "/")) path)) 0

unfoldable pub known_root : Bytes → Bool
known_root s =
    bytes_eq s (ascii "resources")
    || (bytes_eq s (ascii "billing")
        || (bytes_eq s (ascii "organizations")
            || (bytes_eq s (ascii "me")
                || (bytes_eq s (ascii "key-access")
                    || (bytes_eq s (ascii "operations") || bytes_eq s (ascii "catalogs"))))))

branch :
    {K : Type 0} (t : Bool) {x y : Bool}
    → (x ≡ true → K)
    → (y ≡ true → K)
    → (if t then x else y) ≡ true
    → K
branch true f g h = f h
branch false f g h = g h

branch_test :
    {K : Type 0} (t : Bool) {x y : Bool}
    → (t ≡ true → x ≡ true → K)
    → (t ≡ false → y ≡ true → K)
    → (if t then x else y) ≡ true
    → K
branch_test true f g h = f refl h
branch_test false f g h = g refl h

not-eq-false : {t : Bool} → not t ≡ false → t ≡ true
not-eq-false h = ground arith

module _ (m : Bytes) (p : ℕ → Bytes) (n : ℕ) where
  stream_method : stream_route m p n ≡ true → known_method m ≡ true
  unfolding stream_route known_method
  stream_method h = ground arith

  credential_method : credential_route m p n ≡ true → known_method m ≡ true
  unfolding credential_route known_method
  credential_method h = ground arith

  payload_method : payload_route m p n ≡ true → known_method m ≡ true
  unfolding payload_route known_method
  payload_method h = ground arith

  binding_method : binding_route m p n ≡ true → known_method m ≡ true
  unfolding binding_route known_method
  binding_method h = ground arith

  link_method : link_route m p n ≡ true → known_method m ≡ true
  unfolding link_route known_method
  link_method h = ground arith

  action_method : action_route m p n ≡ true → known_method m ≡ true
  unfolding action_route known_method
  action_method h = ground arith

  get_known : is_get m ≡ true → known_method m ≡ true
  unfolding known_method
  get_known h = ground arith

  post_known : is_post m ≡ true → known_method m ≡ true
  unfolding known_method
  post_known h = ground arith

  put_known : is_put m ≡ true → known_method m ≡ true
  unfolding known_method
  put_known h = ground arith

  get_put_known : (is_get m || is_put m) ≡ true → known_method m ≡ true
  unfolding known_method
  get_put_known h = ground arith

  resource_known : (is_get m || (is_put m || is_delete m)) ≡ true → known_method m ≡ true
  unfolding known_method
  resource_known h = ground arith

  scim_known :
      ((n == 3 && (is_get m || is_post m)) || (n == 4 && (id_at m p n 3 && (is_get m || is_put m))))
        ≡ true
      → known_method m ≡ true
  unfolding known_method
  scim_known h = ground arith

  action_known :
      (id_at m p n 2 && (is m p n 3 (ascii "complete") && is_post m)) ≡ true → known_method m ≡ true
  unfolding known_method
  action_known h = ground arith

  below_method : below_resource m p n ≡ true → known_method m ≡ true
  unfolding below_resource
  below_method h =
      branch (n == 2) resource_known
        (branch (n == 3 && is m p n 2 (ascii "collaborators")) get_known (
          branch (is m p n 2 (ascii "scim-directories")) scim_known (
            branch (n == 3 && is m p n 2 (ascii "catalog-binding")) put_known (
              branch _ stream_method (
                branch _ credential_method (
                  branch _ payload_method (
                    branch
                      (is m p n 2 (ascii "executions")
                        && (n == 4
                            && (is m p n 3 (ascii "preflight") || is m p n 3 (ascii "commit"))))
                      post_known
                      (branch (n == 3 && is m p n 2 (ascii "e2ee")) get_put_known (
                        branch
                          (leb 4 n
                            && (is m p n 2 (ascii "e2ee")
                                && is m p n 3 (ascii "function-bindings")))
                          binding_method
                          (branch
                            (n == 4
                              && (is m p n 2 (ascii "link-candidates")
                                  && is m p n 3 (ascii "search")))
                            post_known
                            (branch (n == 4 && is m p n 2 (ascii "links")) link_method
                              action_method)))))))))))
        h

  catalogs_method : my_catalog_route m p n ≡ true → known_method m ≡ true
  unfolding my_catalog_route known_method
  catalogs_method h = ground arith

  claim_method : claim_route m p n ≡ true → known_method m ≡ true
  unfolding claim_route known_method
  claim_method h = ground arith

  key_method : (id : Option Bytes) → key_route m p n id ≡ true → known_method m ≡ true
  unfolding key_route known_method
  key_method none h = cc
  key_method (some id) h = ground (arith, claim_method)

  invitation_method : (id : Option Bytes) → invitation_route m p n id ≡ true → known_method m ≡ true
  unfolding invitation_route known_method
  invitation_method none h = cc
  invitation_method (some id) h = ground arith

  -- The first part and the method are known.
  IsKnown : Type 0
  IsKnown = (known_root (p 0) ≡ true) × (known_method m ≡ true)

  first : (name : Bytes) → known_root name ≡ true → is m p n 0 name ≡ true → known_root (p 0) ≡ true
  unfolding is
  first name h e = ap known_root ((bytes_eq_iff (p 0) name).0 e) ∙ h

  -- In the branch of a test on the first part.
  in_root :
      (name : Bytes) (t : Bool) {x : Bool}
      → known_root name ≡ true
      → (x ≡ true → known_method m ≡ true)
      → (is m p n 0 name && t) ≡ true
      → x ≡ true
      → IsKnown
  unfolding IsKnown
  in_root name t h f e k = (first name h (and-eq-true (is m p n 0 name) t e).0, f k)

  part_route-IsKnown :
      (unescape : Bytes → Option Bytes) → part_route m p n unescape ≡ true → IsKnown
  unfolding part_route IsKnown known_root bytes_eq
  part_route-IsKnown unescape h =
      branch_test (is m p n 0 (ascii "operations"))
        (λ t k.
          (first (ascii "operations") refl t, get_known (and-eq-true (n == 2) (is_get m) k).1))
        (λ _.
          branch_test (is m p n 0 (ascii "me") && is m p n 1 (ascii "catalogs"))
            (in_root (ascii "me") _ refl catalogs_method)
            (λ _.
              branch_test (is m p n 0 (ascii "catalogs") && is_get m)
                (λ t k. (
                  first (ascii "catalogs") refl
                      (and-eq-true (is m p n 0 (ascii "catalogs")) (is_get m) t).0,
                  get_known (and-eq-true (is m p n 0 (ascii "catalogs")) (is_get m) t).1,
                ))
                (λ _.
                  branch_test (is m p n 0 (ascii "key-access") && leb 3 n)
                    (in_root (ascii "key-access") _ refl (key_method (unescape (p 2))))
                    (λ _.
                      branch_test
                        (is m p n 0 (ascii "me")
                          && (n == 4 && is m p n 1 (ascii "encryption-actions")))
                        (in_root (ascii "me") _ refl action_known)
                        (λ _.
                          branch_test
                            (is m p n 0 (ascii "me")
                              && (n == 4 && is m p n 1 (ascii "invitations")))
                            (in_root (ascii "me") _ refl (invitation_method (unescape (p 2))))
                            (λ _.
                              branch_test (not (is m p n 0 (ascii "resources")))
                                (λ t k. absurd (false≢true k))
                                (λ t k. (
                                  first (ascii "resources") refl (not-eq-false t),
                                  below_method k,
                                ))))))))
        h

-- A path behind the prefix whose first part is known, and a known method.
pub record IsConfined (m path : Bytes) : Type 0 where
  pub prefixed : has_prefix (route_prefix ++ ascii "/") path ≡ true
  pub below_root : known_root (root path) ≡ true
  pub method : known_method m ≡ true

branch_some :
    {K : Type 0} (t : Bool) {x : Bool} {y : Option Bool}
    → (t ≡ true → x ≡ true → K)
    → (y ≡ some true → K)
    → (if t then some x else y) ≡ some true
    → K
branch_some true f g h = f refl (cc)
branch_some false f g h = g h

module _ (m path : Bytes) where
  -- One of the fixed paths.
  at_path :
      (name : Bytes) {x : Bool}
      → (has_prefix (route_prefix ++ ascii "/") (at name) && known_root (root (at name))) ≡ true
      → (x ≡ true → known_method m ≡ true)
      → bytes_eq path (at name) ≡ true
      → x ≡ true
      → IsConfined m path
  at_path name h f e k =
      let same = (bytes_eq_iff path (at name)).0 e in
      let (prefixed, below) =
        and-eq-true (has_prefix (route_prefix ++ ascii "/") (at name)) (known_root (root (at name)))
          h in
      record {
        prefixed = ap (has_prefix (route_prefix ++ ascii "/")) same ∙ prefixed;
        below_root = ap (λ (s : Bytes). known_root (root s)) same ∙ below;
        method = f k;
      }

  either_path :
      (s t : Bool) {x : Bool} {K : Type 0}
      → (s ≡ true → x ≡ true → K)
      → (t ≡ true → x ≡ true → K)
      → (s || t) ≡ true
      → x ≡ true
      → K
  either_path true t f g h k = f refl k
  either_path false t f g h k = g h k

  get_post_known : (is_get m || is_post m) ≡ true → known_method m ≡ true
  unfolding known_method
  get_post_known h = ground arith

  fixed_route-IsConfined : fixed_route m path ≡ some true → IsConfined m path
  unfolding fixed_route at root part known_root has_prefix trim_prefix split_at add_to_first
      bytes_eq
  fixed_route-IsConfined h =
      let get : is_get m ≡ true → known_method m ≡ true = get_known m (λ i. path) 0 in
      let post : is_post m ≡ true → known_method m ≡ true = post_known m (λ i. path) 0 in
      branch_some (bytes_eq path (at (ascii "/resources"))) (at_path (ascii "/resources") refl post)
        (branch_some
          (bytes_eq path (at (ascii "/billing/checkout-sessions"))
            || bytes_eq path (at (ascii "/billing/portal-sessions")))
          (either_path (bytes_eq path (at (ascii "/billing/checkout-sessions")))
            (bytes_eq path (at (ascii "/billing/portal-sessions")))
            (at_path (ascii "/billing/checkout-sessions") refl post)
            (at_path (ascii "/billing/portal-sessions") refl post))
          (branch_some (bytes_eq path (at (ascii "/organizations")))
            (at_path (ascii "/organizations") refl get_post_known)
            (branch_some (bytes_eq path (at (ascii "/resources/search")))
              (at_path (ascii "/resources/search") refl post)
              (branch_some
                (bytes_eq path (at (ascii "/me/invitations"))
                  || (bytes_eq path (at (ascii "/me/resources"))
                      || bytes_eq path (at (ascii "/me/catalogs"))))
                (either_path (bytes_eq path (at (ascii "/me/invitations")))
                  (bytes_eq path (at (ascii "/me/resources"))
                    || bytes_eq path (at (ascii "/me/catalogs")))
                  (at_path (ascii "/me/invitations") refl get)
                  (either_path (bytes_eq path (at (ascii "/me/resources")))
                    (bytes_eq path (at (ascii "/me/catalogs")))
                    (at_path (ascii "/me/resources") refl get)
                    (at_path (ascii "/me/catalogs") refl get)))
                (branch_some
                  (bytes_eq path (at (ascii "/key-access/subject-keys"))
                    || bytes_eq path (at (ascii "/key-access/resource-envelope")))
                  (either_path (bytes_eq path (at (ascii "/key-access/subject-keys")))
                    (bytes_eq path (at (ascii "/key-access/resource-envelope")))
                    (at_path (ascii "/key-access/subject-keys") refl get_post_known)
                    (at_path (ascii "/key-access/resource-envelope") refl get_post_known))
                  (branch_some (bytes_eq path (at (ascii "/me/encryption-actions")))
                    (at_path (ascii "/me/encryption-actions") refl get) nothing_else))))))
        h
    where
      nothing_else : none ≡ some true → IsConfined m path
      nothing_else e = cc

module _ (library : Library) where
  split_route-IsConfined :
      (m path : Bytes)
      → split_route library m (split_at b'/' (trim_prefix (at (ascii "/")) path)) path ≡ true
      → IsConfined m path
  unfolding split_route root at IsKnown
  split_route-IsConfined m path h =
      let parts = split_at b'/' (trim_prefix (at (ascii "/")) path) in
      let (prefixed, h1) = and-eq-true (has_prefix (at (ascii "/")) path) _ h in
      let (enough, h2) = and-eq-true (not (ltb (length parts) 2)) _ h1 in
      let (valid, h3) = and-eq-true (valid_part (library.path_unescape (part parts 1))) _ h2 in
      let (below, method) =
        part_route-IsKnown m (part parts) (length parts) library.path_unescape h3 in
      record { prefixed = prefixed; below_root = below; method = method }

  or_split-IsConfined :
      (m path : Bytes) (x : Option Bool)
      → (x ≡ some true → IsConfined m path)
      → or_split library m path x ≡ true
      → IsConfined m path
  unfolding or_split
  or_split-IsConfined m path none f h = split_route-IsConfined m path h
  or_split-IsConfined m path (some answer) f h = f (ap some h)

  -- A route of resources lies behind the prefix, its first part is one of seven known ones, and its
  -- method is GET, POST, PUT or DELETE.
  pub resource_route-IsConfined :
      (m path : Bytes) → resource_route library m path ≡ true → IsConfined m path
  unfolding resource_route
  resource_route-IsConfined m path h =
      or_split-IsConfined m path (fixed_route m path) (fixed_route-IsConfined m path) h
