-- ===== src/ApiDocs/Serving.antt =====
-- What the documentation page needs is served.
use al_ur_messenger.Prelude.{◌≡◌, refl, Option, none, some, [], ◌∷◌}
use al_ur_messenger.Text.{Text}
use al_ur_messenger.ApiDocs.{
  Method, Route, Assets, MediaType, Response, served, handle, initializer_options, loaded, html,
  css, javascript, json, asset, respond, docs, docs_slash, swagger_css, swagger_bundle_js,
  initializer_js,
}

-- The files that are embedded.
pub record Files : Type 0 where
  pub index_html : Text
  pub swagger_bundle : Text
  pub initializer : Text
  pub stylesheet : Text
  pub document : Text

abbrev pub embedded : Files → Assets
embedded f = record {
  index_html = some f.index_html;
  swagger_bundle = some f.swagger_bundle;
  initializer = some f.initializer;
  stylesheet = some f.stylesheet;
  document = f.document;
}

-- What a browser has to get at each address that the page and its script load.
abbrev pub IsServed : Assets → MediaType → Text → Route → Type 0
IsServed a t content p = handle a Method.get p ≡ served t content (some content)

-- If every file is there, the page is served at both of its addresses as HTML, and each address that
-- the page loads answers with its own file: the stylesheet as CSS, then the bundle and the
-- initializer as JavaScript, and the address that the initializer gives to Swagger UI with the
-- OpenAPI document, as JSON.
pub page_loads :
    (f : Files)
    → IsServed (embedded f) html f.index_html docs
      × IsServed (embedded f) html f.index_html docs_slash
      × IsServed (embedded f) css f.stylesheet swagger_css
      × IsServed (embedded f) javascript f.swagger_bundle swagger_bundle_js
      × IsServed (embedded f) javascript f.initializer initializer_js
      × IsServed (embedded f) json f.document initializer_options.url
      × (loaded ≡ swagger_css ∷ swagger_bundle_js ∷ initializer_js ∷ initializer_options.url ∷ [])
unfolding handle
page_loads f = (refl, refl, refl, refl, refl, refl, refl)

abbrev pub without_body : Response → Response
without_body (served t content body) = served t content none
without_body r = r

-- HEAD answers every path as GET does, with the type and the length of the same content and without
-- the content.
pub head_like_get :
    (a : Assets) (p : Route) → handle a Method.head p ≡ without_body (handle a Method.get p)
unfolding handle
head_like_get a p = go (asset a p)
  where
    go :
        (o : Option (MediaType × Option Text))
        → respond Method.head o ≡ without_body (respond Method.get o)
    go none = refl
    go (some (t, none)) = refl
    go (some (t, some content)) = refl
