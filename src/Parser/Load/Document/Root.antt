-- ===== src/Parser/Load/Document/Root.antt =====
-- Which document json_parser of parser.cpp holds on to, and what it leaves of the settings.
use gst_app.Prelude.{
  ℕ, negsuc, ◌≡◌, ◌⊎◌, inl, inr, refl, Bool, true, false, Bool-cases, Option, none, some, List, [],
  ◌∷◌, arith, if◌then◌else◌, codes,
}
use gst_app.CfgJson.{Json}
use gst_app.Parser.Args.{CmdArg}
use gst_app.Parser.Getters.{get_member}
use gst_app.Parser.Load.Sections.{Loading, load_cap_section, load_capture, load_tuning, load_base}
use gst_app.Parser.Load.Document.Config.{IsConfig, has_sections_iff}
use gst_app.Parser.Load.Document.{
  Parsed, with_cameras, has_sections, load_sections, load_document, parse_document, json_parser,
}

load_cap_section_json_file :
    (sobj : Option Json) (l : Loading) → (load_cap_section sobj l).arg.json_file ≡ l.arg.json_file
unfolding load_cap_section load_capture
load_cap_section_json_file sobj l = ground arith

load_sections_json_file :
    (hobj : Option Json) (l : Loading) → (load_sections hobj l).arg.json_file ≡ l.arg.json_file
unfolding load_sections load_tuning load_base
load_sections_json_file hobj l =
    load_cap_section_json_file (get_member hobj (codes "capture")) (load_base hobj l)

pick :
    (Goal : Parsed → Type 0) (t : Bool) (a b : Parsed) → Goal a → Goal b → Goal (if t then a else b)
pick Goal true a b p q = p
pick Goal false a b p q = q

load_document-root :
    (document : Json) (header : List ℕ) (arg : CmdArg)
    → (load_document document header arg).root ≡ some document
unfolding load_document
load_document-root document header arg =
    pick (λ (p : Parsed). p.root ≡ some document) _ _ _ refl refl

load_document_json_file :
    (document : Json) (header : List ℕ) (arg : CmdArg)
    → (load_document document header arg).arg.json_file ≡ arg.json_file
unfolding load_document with_cameras
load_document_json_file document header arg =
    let hobj = get_member (some document) header in
    let kept = load_sections_json_file hobj (record { arg = arg; errors = 0 }) in
    pick (λ (p : Parsed). p.arg.json_file ≡ arg.json_file) _ _ _ kept kept

-- The path leads to such a document.
abbrev pub LeadsTo : (List ℕ → Option Json) → Option (List ℕ) → List ℕ → Json → Type 0
LeadsTo from_file none header doc = ⊥
LeadsTo from_file (some []) header doc = ⊥
LeadsTo from_file (some (c ∷ path)) header doc =
    (from_file (c ∷ path) ≡ some doc) × IsConfig doc header

-- The settings with the name of the file, if there is one.
abbrev pub named : Option (List ℕ) → CmdArg → CmdArg
named none arg = arg
named (some []) arg = arg
named (some (c ∷ path)) arg = record arg { json_file = some (c ∷ path) }

module _ (header : List ℕ) (arg : CmdArg) (root : Option Json) where
  parse_document-root :
      (found : Option Json)
      → ((doc : Json) × (found ≡ some doc)
          × IsConfig doc header
          × ((parse_document found header arg root).root ≡ some doc)
          × ((parse_document found header arg root).arg.json_file ≡ arg.json_file))
        ⊎ (((doc : Json) → found ≡ some doc → ¬ IsConfig doc header)
            × ((parse_document found header arg root).root ≡ root)
            × ((parse_document found header arg root).arg ≡ arg)
            × ((parse_document found header arg root).code ≡ negsuc 0))
  unfolding parse_document
  parse_document-root none = inr (λ doc e w. absurd (ground arith), refl, refl, refl)
  parse_document-root (some document) = elim (Bool-cases (has_sections document header)) [
    | inl good ↦
        let config = (has_sections_iff document header).0 good in
        rw good (
          inl (
            document,
            refl,
            config,
            load_document-root document header arg,
            load_document_json_file document header arg,
          ))
    | inr bad ↦
        let none_else : (doc : Json) → some document ≡ some doc → ¬ IsConfig doc header = λ doc e w.
          let same : document ≡ doc = ground arith in
          let good = (has_sections_iff doc header).1 w in
          let bad' : has_sections doc header ≡ false = rw same at bad in cc in
        rw bad (inr (none_else, refl, refl, refl))
  ]

module _ (from_file : List ℕ → Option Json) (header : List ℕ) (arg : CmdArg)
    (root : Option Json) where
  -- The parser comes to hold on to a document exactly when the path is not empty and leads to a
  -- document that is an object and whose header, ORD and VCM sections are objects, and then it is
  -- this document. In any other case the call fails, the parser holds on to what it held, and the
  -- settings are what they were. The name of the file is stored if the path is not empty.
  pub json_parser-root :
      (path : Option (List ℕ))
      → let p = json_parser from_file path header arg root in
        ((doc : Json) × LeadsTo from_file path header doc
          × (p.root ≡ some doc)
          × (p.arg.json_file ≡ path))
        ⊎ (((doc : Json) → ¬ LeadsTo from_file path header doc)
            × (p.root ≡ root)
            × (p.arg ≡ named path arg)
            × (p.code ≡ negsuc 0))
  unfolding json_parser
  json_parser-root none = inr (λ doc w. w, refl, refl, refl)
  json_parser-root (some []) = inr (λ doc w. w, refl, refl, refl)
  json_parser-root (some (c ∷ path)) =
      elim (parse_document-root header (record arg { json_file = some (c ∷ path) }) root
        (from_file (c ∷ path))) [
          | inl (doc, found, config, held, name) ↦ inl (doc, (found, config), held, name)
          | inr (unfit, held, same, failed) ↦ inr (λ doc w. unfit doc w.0 w.1, held, same, failed)
        ]
