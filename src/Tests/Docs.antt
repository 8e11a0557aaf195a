-- ===== src/Tests/Docs.antt =====
-- The documentation page at concrete inputs.
use al_ur_messenger.Prelude.{◌≡◌, [], ◌∷◌}
use al_ur_messenger.ApiDocs.{
  Method, Route, handle, loaded, initializer_options, html, css, javascript, json, docs, docs_slash,
  swagger_css, swagger_bundle_js, initializer_js,
}
use al_ur_messenger.ApiDocs.Serving.{
  Files, embedded, IsServed, page_loads, head_like_get, without_body,
}

abbrev files : Files
files = record {
  index_html = b'h' ∷ [];
  swagger_bundle = b'b' ∷ [];
  initializer = b'i' ∷ [];
  stylesheet = [];
  document = b'd' ∷ [];
}

page_loads_example :
    IsServed (embedded files) html (b'h' ∷ []) docs
    × IsServed (embedded files) html (b'h' ∷ []) docs_slash
    × IsServed (embedded files) css [] swagger_css
    × IsServed (embedded files) javascript (b'b' ∷ []) swagger_bundle_js
    × IsServed (embedded files) javascript (b'i' ∷ []) initializer_js
    × IsServed (embedded files) json (b'd' ∷ []) initializer_options.url
    × (loaded ≡ swagger_css ∷ swagger_bundle_js ∷ initializer_js ∷ initializer_options.url ∷ [])
page_loads_example = page_loads files

head_like_get_example :
    handle (embedded files) Method.head Route.docs
    ≡ without_body (handle (embedded files) Method.get Route.docs)
head_like_get_example = head_like_get (embedded files) Route.docs
