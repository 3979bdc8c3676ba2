-- ===== src/Config/Reading.antt =====
-- When `Config::load` of src/config.rs succeeds, and with which configuration.
use redistill.Base.{
  ◌≡◌, refl, sym, ap, ◌∙◌, ◌⊎◌, inl, inr, ◌↔◌, true, false, Option, some, Option-cases, codes,
  arith,
}
use redistill.Config.{Text, Config, default_config}
use redistill.Config.Load.{
  Vars, File, missing, unreadable, contents, ok, set_text, override, read_file, load,
}
use redistill.Config.Sound.{IsUsable, base_of, load-base, validate-IsUsable, validate-ok}
use redistill.Config.Effective.{named, set_text-named, effective, override-effective}

module _ {F : Type 0} (tenth : F) (from_toml : Text → Option (Config F)) where
  -- The defaults where there is no file, else what the file says.
  abbrev pub IsBase : Vars → (Text → File) → Config F → Type 0
  IsBase vars files base =
      let file = files (named (vars (codes "REDISTILL_CONFIG")) (codes "redistill.toml")) in
      ((file ≡ missing) × (base ≡ default_config tenth))
      ⊎ ((s : Text) × (file ≡ contents s) × (from_toml s ≡ some base))

  File-cases :
      (file : File) → (file ≡ missing) ⊎ ((file ≡ unreadable) ⊎ ((s : Text) × (file ≡ contents s)))
  File-cases missing = inl refl
  File-cases unreadable = inr (inl refl)
  File-cases (contents s) = inr (inr (s, refl))

  read_file-missing :
      (base : Config F) → read_file tenth from_toml missing ≡ ok base → base ≡ default_config tenth
  unfolding read_file
  read_file-missing base e = cc

  read_file-unreadable :
      (base : Config F) → read_file tenth from_toml unreadable ≡ ok base → true ≡ false
  unfolding read_file
  read_file-unreadable base e = cc

  read_file-contents :
      (s : Text) (base : Config F)
      → read_file tenth from_toml (contents s) ≡ ok base
      → from_toml s ≡ some base
  unfolding read_file
  read_file-contents s base e = elim (Option-cases (from_toml s)) [
    | inl gone ↦ let k = rw (gone, read_file) at e in cc
    | inr (d, read) ↦
        let k : ok d ≡ ok base = rw (read, read_file) at e in
        let same : d ≡ base = cc in read ∙ ap some same
  ]

  path_named :
      (vars : Vars)
      → set_text (vars (codes "REDISTILL_CONFIG")) (codes "redistill.toml")
        ≡ named (vars (codes "REDISTILL_CONFIG")) (codes "redistill.toml")
  path_named vars = set_text-named (vars (codes "REDISTILL_CONFIG")) (codes "redistill.toml")

  base_of-IsBase :
      (vars : Vars) (files : Text → File) (base : Config F)
      → base_of tenth from_toml vars files ≡ ok base
      → IsBase vars files base
  base_of-IsBase vars files base e =
      let file = files (named (vars (codes "REDISTILL_CONFIG")) (codes "redistill.toml")) in
      let read : read_file tenth from_toml file ≡ ok base =
        ap (λ path. read_file tenth from_toml (files path)) (sym (path_named vars)) ∙ e in
      elim (File-cases file) [
        | inl gone ↦ inl (gone, read_file-missing base (rw gone at read))
        | inr (inl bad) ↦ absurd (ground (arith, read_file-unreadable base (rw bad at read)))
        | inr (inr (s, there)) ↦ inr (s, there, read_file-contents s base (rw there at read))
      ]

  IsBase-base_of :
      (vars : Vars) (files : Text → File) (base : Config F)
      → IsBase vars files base
      → base_of tenth from_toml vars files ≡ ok base
  unfolding read_file
  IsBase-base_of vars files base (inl (gone, e)) = rw (path_named vars, gone, read_file, e)
  IsBase-base_of vars files base (inr (s, there, e)) = rw (path_named vars, there, read_file, e)

  -- load succeeds with a configuration just when there is no file and the base is the defaults, or
  -- the file reads as TOML of the base; each field that has a variable is then what the variable
  -- says, where it is set: a text as it is, a number where it parses within its type, a Boolean or
  -- else the value taken for what is neither true nor false; all other fields are those of the
  -- base; and there is a shard, a buffer, a port, and, with a memory limit, a sample for the
  -- eviction.
  pub load_iff :
      (vars : Vars) (files : Text → File) (c : Config F)
      → (load tenth from_toml vars files ≡ ok c)
        ↔ ((base : Config F) × IsBase vars files base × (c ≡ effective vars base) × IsUsable c)
  unfolding load
  load_iff vars files c = (
    λ e.
        let (base, read, same, valid) = load-base tenth from_toml vars files c e in
        (
          base,
          base_of-IsBase vars files base read,
          same ∙ override-effective vars base,
          validate-IsUsable c valid,
        ),
    λ h.
        let (base, is, eff, u) = h in
        let read = IsBase-base_of vars files base is in
        let same : c ≡ override vars base = eff ∙ sym (override-effective vars base) in
        rw (same, read, validate-ok (override vars base) (rw same at u)),
  )
