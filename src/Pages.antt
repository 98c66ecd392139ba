-- ===== src/Pages.antt =====
-- internal/mdpage/mdpage.go: the handlers of the Markdown pages. The file system, goldmark and
-- html/template are given.
use pingclaw_server.Prelude.{
  ℕ, ◌≡◌, refl, Option, none, some, [], ◌∷◌, Text, codes, if◌then◌else◌, ◌==◌,
}
use pingclaw_server.Http.{Response, plain, json, str, obj, end, field, http_error}

-- What os.ReadFile, os.Stat, goldmark.Convert, the parser of html/template and its Execute give;
-- `none` is an error. Execute writes what it has before an error, so it always gives a text.
pub record Library (Template : Type 0) : Type 0 where
  pub read_file : Text → Option Text
  pub modified : Text → Option ℕ
  -- ModTime().Format("January 2, 2006")
  pub date : ℕ → Text
  pub convert : Text → Option Text
  pub parse : Text → Option Template
  pub execute : Template → Text → Text → Text

-- A page of HTML, or of JSON.
abbrev pub html : Text → Response
html content = record {
  status = 200;
  headers = (codes "Content-Type", codes "text/html; charset=utf-8") ∷ [];
  body = plain content;
}

abbrev pub failure : Response
failure = http_error "internal error" 500

module _ {Template : Type 0} (lib : Library Template) where
  abbrev shown_date : Option ℕ → Text
  shown_date none = codes "—"
  shown_date (some t) = lib.date t

  -- The date of the last change of a file.
  abbrev pub last_updated : Text → Text
  last_updated path = shown_date (lib.modified path)

  -- The steps of a handler, each of which answers 500 on an error.
  abbrev pub or_failure {ℓ} : {A : Type ℓ} → Option A → (A → Response) → Response
  or_failure none next = failure
  or_failure (some a) next = next a

  -- Handler.ServeHTTP
  unfoldable pub render_page : Text → Text → Response
  render_page template_path content_path = or_failure (lib.read_file template_path) λ shell.
      or_failure (lib.read_file content_path) λ markdown.
        or_failure (lib.convert markdown) λ content.
          or_failure (lib.parse shell)
            λ template. html (lib.execute template content (last_updated content_path))

  -- NewMarkdownHandler
  unfoldable pub serve_markdown : Text → Response
  serve_markdown path = or_failure (lib.read_file path) λ markdown. record {
    status = 200;
    headers =
        (codes "Content-Type", codes "application/json; charset=utf-8")
        ∷ (codes "Cache-Control", codes "public, max-age=3600")
        ∷ [];
    body =
        json (
          obj
            (field "content" (str markdown) (field "last_updated" (str (last_updated path)) end)));
  }

  -- NewFragmentHandler
  unfoldable pub serve_fragment : Text → Response
  serve_fragment path =
      or_failure (lib.read_file path)
        λ markdown. or_failure (lib.convert markdown) λ content. html content

-- A library whose only file is the shell.
abbrev shell_only : Library Text
shell_only = record {
  read_file = λ path. if path == codes "index.html" then some (codes "<p>") else none;
  modified = λ path. none;
  date = λ t. codes "today";
  convert = some;
  parse = some;
  execute = λ template content date. template;
}

shell_without_content :
    (render_page shell_only (codes "index.html") (codes "content.md")).status ≡ 500
unfolding render_page
shell_without_content = refl

fragment_of_shell : serve_fragment shell_only (codes "index.html") ≡ html (codes "<p>")
unfolding serve_fragment
fragment_of_shell = refl
