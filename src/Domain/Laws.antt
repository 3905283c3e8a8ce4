-- ===== src/Domain/Laws.antt =====
-- What a loaded registry holds under a code, and what a lookup gives.
use analysis_srv.Prelude.{
  refl, sym, ◌∙◌, ◌≡◌, ap, String, true, Option, none, some, List, [], ◌∷◌, arith, Option-cases,
  Bool-cases, inl, inr, if◌then◌else◌,
}
use analysis_srv.Prelude.Eq.{◌==◌, ==_iff, text_key}
use analysis_srv.Prelude.Dict.{get}
use analysis_srv.Prelude.Dict.Laws.{get-set}
use analysis_srv.Prelude.Float.{Float}
use analysis_srv.Prelude.Text.{non_empty}
use analysis_srv.Domain.{
  DomainRuntimeConfig, DomainRegistry, DomainFile, bare_default, lookup, register, parse, load_onto,
  load_from_dir, with_default,
}

module _ {F : Type 0} ⦃fl : Float F⦄ where
  -- What is found under a code has this code, which is not empty.
  abbrev pub IsNamed : DomainRegistry F → Type 0
  IsNamed registry =
      (code : String) (cfg : DomainRuntimeConfig F)
      → get code registry.domains ≡ some cfg
      → (cfg.domain_code ≡ code) × (non_empty code ≡ true)

  parse-named :
      (file : DomainFile F) (cfg : DomainRuntimeConfig F)
      → parse file ≡ some cfg
      → non_empty cfg.domain_code ≡ true
  unfolding parse
  parse-named file cfg h = ground arith

  register-IsNamed :
      (cfg : DomainRuntimeConfig F) (registry : DomainRegistry F)
      → non_empty cfg.domain_code ≡ true
      → IsNamed registry
      → IsNamed (register cfg registry)
  unfolding register
  register-IsNamed cfg registry named h code found e = elim (Bool-cases (cfg.domain_code == code)) [
    | inl t ↦
        let same : cfg ≡ found =
          ground (arith, get-set cfg.domain_code code cfg registry.domains) in
        let code_same = (==_iff cfg.domain_code code).0 t in
        (cc (ap (λ (c : DomainRuntimeConfig F). c.domain_code) same, code_same), cc)
    | inr t ↦ h code found (ground (arith, get-set cfg.domain_code code cfg registry.domains))
  ]

  load_onto-IsNamed :
      (registry : DomainRegistry F) (files : List (Option (DomainFile F)))
      → IsNamed registry
      → IsNamed (load_onto registry files)
  unfolding load_onto
  load_onto-IsNamed registry [] h = h
  load_onto-IsNamed registry (none ∷ files) h = load_onto-IsNamed registry files h
  load_onto-IsNamed registry (some file ∷ files) h = elim (Option-cases (parse file)) [
    | inl e ↦ rw (load_onto, e) (load_onto-IsNamed registry files h)
    | inr (cfg, e) ↦
        rw (load_onto, e)
          (load_onto-IsNamed (register cfg registry) files
            (register-IsNamed cfg registry (parse-named file cfg e) h))
  ]

  -- In a loaded registry the domain that is found under a code has this code, and no domain has an empty
  -- one.
  pub load_from_dir-IsNamed :
      (fallback_code : String) (files : List (Option (DomainFile F)))
      → IsNamed (load_from_dir fallback_code files)
  unfolding load_from_dir get
  load_from_dir-IsNamed fallback_code files =
      load_onto-IsNamed (record { domains = []; fallback_code = fallback_code }) files
        (λ code cfg e. cc)

  -- The configuration that a file gives for a code.
  abbrev pub own_config : String → Option (DomainRuntimeConfig F) → Option (DomainRuntimeConfig F)
  own_config code none = none
  own_config code (some cfg) = if cfg.domain_code == code then some cfg else none

  abbrev pub parsed : Option (DomainFile F) → Option (DomainRuntimeConfig F)
  parsed none = none
  parsed (some file) = parse file

  abbrev pub prefer :
      Option (DomainRuntimeConfig F)
      → Option (DomainRuntimeConfig F)
      → Option (DomainRuntimeConfig F)
  prefer (some cfg) other = some cfg
  prefer none other = other

  -- The configuration of the last file with a code.
  abbrev pub last_with : String → List (Option (DomainFile F)) → Option (DomainRuntimeConfig F)
  last_with code [] = none
  last_with code (file ∷ files) = prefer (last_with code files) (own_config code (parsed file))

  get-register :
      (code : String) (cfg : DomainRuntimeConfig F) (registry : DomainRegistry F)
      → get code (register cfg registry).domains
        ≡ prefer (own_config code (some cfg)) (get code registry.domains)
  unfolding register
  get-register code cfg registry = ground (arith, get-set cfg.domain_code code cfg registry.domains)

  prefer_assoc :
      (a b c : Option (DomainRuntimeConfig F)) → prefer a (prefer b c) ≡ prefer (prefer a b) c
  prefer_assoc none b c = refl
  prefer_assoc (some cfg) b c = refl

  prefer-none : (a : Option (DomainRuntimeConfig F)) → prefer a none ≡ a
  prefer-none none = refl
  prefer-none (some cfg) = refl

  get-load_onto :
      (code : String) (files : List (Option (DomainFile F))) (registry : DomainRegistry F)
      → get code (load_onto registry files).domains
        ≡ prefer (last_with code files) (get code registry.domains)
  unfolding load_onto
  get-load_onto code [] registry = refl
  get-load_onto code (none ∷ files) registry =
      get-load_onto code files registry
      ∙ ap (λ a. prefer a (get code registry.domains)) (sym (prefer-none (last_with code files)))
  get-load_onto code (some file ∷ files) registry = elim (Option-cases (parse file)) [
    | inl e ↦
        rw (load_onto, e)
          (get-load_onto code files registry
            ∙ ap (λ a. prefer a (get code registry.domains))
                (sym (prefer-none (last_with code files))))
    | inr (cfg, e) ↦
        rw (load_onto, e)
          (get-load_onto code files (register cfg registry)
            ∙ ap (prefer (last_with code files)) (get-register code cfg registry)
            ∙ prefer_assoc (last_with code files) (own_config code (some cfg))
                (get code registry.domains))
  ]

  fallback-load_onto :
      (files : List (Option (DomainFile F))) (registry : DomainRegistry F)
      → (load_onto registry files).fallback_code ≡ registry.fallback_code
  unfolding load_onto register
  fallback-load_onto [] registry = refl
  fallback-load_onto (none ∷ files) registry = fallback-load_onto files registry
  fallback-load_onto (some file ∷ files) registry = elim (Option-cases (parse file)) [
    | inl e ↦ rw (load_onto, e) (fallback-load_onto files registry)
    | inr (cfg, e) ↦ rw (load_onto, e) (fallback-load_onto files (register cfg registry))
  ]

  lookup-found :
      (code : String) (registry : DomainRegistry F) (a b : Option (DomainRuntimeConfig F))
      → get code registry.domains ≡ a
      → get registry.fallback_code registry.domains ≡ b
      → lookup code registry ≡ with_default bare_default (prefer a b)
  unfolding lookup
  lookup-found code registry (some cfg) b e d = rw (lookup, e) refl
  lookup-found code registry none (some cfg) e d = rw (lookup, e, d) refl
  lookup-found code registry none none e d = rw (lookup, e, d) refl

  -- A lookup in a loaded registry gives the configuration of the last file that parses with the wanted
  -- code; if there is none, that of the last one with the fallback code; if there is none either, the
  -- bare default.
  pub lookup-load_from_dir :
      (fallback_code code : String) (files : List (Option (DomainFile F)))
      → lookup code (load_from_dir fallback_code files)
        ≡ with_default bare_default (prefer (last_with code files) (last_with fallback_code files))
  unfolding load_from_dir get
  lookup-load_from_dir fallback_code code files =
      let empty : DomainRegistry F = record { domains = []; fallback_code = fallback_code } in
      let registry = load_onto empty files in
      let found : (k : String) → get k registry.domains ≡ last_with k files =
        λ k. get-load_onto k files empty ∙ prefer-none (last_with k files) in
      lookup-found code registry (last_with code files) (last_with fallback_code files) (found code)
        (ap (λ k. get k registry.domains) (fallback-load_onto files empty) ∙ found fallback_code)
