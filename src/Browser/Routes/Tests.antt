-- ===== src/Browser/Routes/Tests.antt =====
-- The route of a search.
use lotor_go.Common.{◌≡◌, refl, true, []}
use lotor_go.Common.Bytes.{ascii, bytes_eq}
use lotor_go.Browser.{Library}
use lotor_go.Browser.Routes.{
  is_get, is_post, at, fixed_route, or_split, resource_route, valid_resource_query,
}

module _ (library : Library) where
  pub search_route :
      resource_route library (ascii "POST") (ascii "/.lotor/v1/resources/search") ≡ true
  unfolding resource_route or_split fixed_route at is_post is_get bytes_eq
  search_route = refl

  pub search_query :
      valid_resource_query library (ascii "POST") (ascii "/.lotor/v1/resources/search") [] ≡ true
  unfolding valid_resource_query bytes_eq
  search_query = refl
