-- ===== src/Cost/Catalog.antt =====
-- The pricing catalog: apps/worker/cost-mapper/internal/catalog/catalog.go. The directory's files are
-- what filepath.Glob, os.ReadFile and the YAML decoder make of them, the parameters of `load_dir`.
pub mod Models
pub mod Loaded
use openllm_metrics.Prelude.{
  ℕ, ◌+◌, Bool, true, false, Option, none, some, List, [], ◌∷◌, ◌++◌, length, Text, Text-discrete,
  text, is_empty, ite, if◌then◌else◌, ◌==◌, get, put, sort_strings,
}
use mathlib.Core.List.{reverse}
use openllm_metrics.Cost.{canonical}

pub record Rate (C : Type 0) : Type 0 where
  pub provider : Text
  pub model : Text
  pub input_per_1k : C
  pub output_per_1k : C
  pub currency : Text
  pub approximate : Bool

-- The type entry.
pub record ModelEntry (C : Type 0) : Type 0 where
  pub model : Text
  pub input_per_1k : C
  pub output_per_1k : C

pub record ProviderFile (C : Type 0) : Type 0 where
  pub provider : Text
  pub currency : Text
  pub unit : Text
  pub approximate : Bool
  pub effective_from : Text
  pub models : List (ModelEntry C)

-- The rates are keyed by provider and model.
pub record Catalog (C : Type 0) : Type 0 where
  pub rates : List (Text × Rate C)
  pub version : Text

pub data LoadError : Type 0 where
  glob_failed : LoadError
  no_files : LoadError
  unreadable : LoadError
  unparsable : LoadError
  missing_provider : LoadError
  unsupported_unit : LoadError
  unnamed_model : LoadError
  duplicate : LoadError

pub data Loading (A : Type 0) : Type 0 where
  loaded : A → Loading A
  failed : LoadError → Loading A

unfoldable pub key_for : Text → Text → Text
key_for provider model = canonical provider ++ text "|" ++ canonical model

-- What stands before the first slash.
unfoldable pub up_to_slash : Text → Text
up_to_slash [] = []
up_to_slash (c ∷ s) = if c == b'/' then [] else c ∷ up_to_slash s

drop_slashes : Text → Text
drop_slashes [] = []
drop_slashes (c ∷ s) = if c == b'/' then drop_slashes s else c ∷ s

-- filepath.Base
unfoldable pub base : Text → Text
unfolding drop_slashes
base [] = text "."
base (c ∷ s) =
    let name = reverse (up_to_slash (drop_slashes (reverse (c ∷ s)))) in
    if is_empty name then text "/" else name

-- strings.Join
unfoldable pub join : Text → List Text → Text
join sep [] = []
join sep (p ∷ []) = p
join sep (p ∷ q ∷ ps) = p ++ sep ++ join sep (q ∷ ps)

module _ {C : Type 0} where
  unfoldable pub new : Catalog C
  new = record { rates = []; version = [] }

  unfoldable pub rate_of : ProviderFile C → ModelEntry C → Rate C
  rate_of pf e = record {
    provider = canonical pf.provider;
    model = canonical e.model;
    input_per_1k = e.input_per_1k;
    output_per_1k = e.output_per_1k;
    currency = if is_empty pf.currency then text "USD" else pf.currency;
    approximate = pf.approximate;
  }

  -- The loop over a file's models.
  unfoldable pub add_models :
      ProviderFile C → List (ModelEntry C) → List (Text × Rate C) → Loading (List (Text × Rate C))
  add_models pf [] next = loaded next
  add_models pf (e ∷ es) next =
      let key = key_for pf.provider e.model in
      let rest = add_models pf es (put key (rate_of pf e) next) in
      if is_empty e.model
      then failed unnamed_model
      else elim (get key next) [ some r ↦ failed duplicate | none ↦ rest ]

  -- A file that is read and decoded.
  unfoldable pub add_file : ProviderFile C → List (Text × Rate C) → Loading (List (Text × Rate C))
  add_file pf next =
      if is_empty pf.provider
      then failed missing_provider
      else if is_empty pf.unit
      then add_models pf pf.models next
      else ite (Text-discrete pf.unit (text "per_1k_tokens")) (add_models pf pf.models next)
          (failed unsupported_unit)

  unfoldable pub version_part : Text → ProviderFile C → Text
  version_part path pf = base path ++ text "@" ++ pf.effective_from

  abbrev pub with_part :
      Text → Loading (List (Text × Rate C) × List Text) → Loading (List (Text × Rate C) × List Text)
  with_part p (loaded (rates, ps)) = loaded (rates, p ∷ ps)
  with_part p (failed e) = failed e

  -- Publishes what was loaded, and leaves the catalog after an error.
  abbrev pub loaded_or :
      Loading (List (Text × Rate C) × List Text) → Catalog C → Catalog C × Option LoadError
  loaded_or (failed e) c = (c, some e)
  loaded_or (loaded (rates, parts)) c =
      (record { rates = rates; version = join (text ";") parts }, none)

  module _ (read : Text → Option Text) (unmarshal : Text → Option (ProviderFile C)) where
    -- The loop over the files.
    unfoldable pub add_files :
        List Text → List (Text × Rate C) → Loading (List (Text × Rate C) × List Text)
    add_files [] next = loaded (next, [])
    add_files (path ∷ paths) next = elim (read path) [
      | none ↦ failed unreadable
      | some raw ↦ elim (unmarshal raw) [
        | none ↦ failed unparsable
        | some pf ↦ elim (add_file pf next) [
          | failed e ↦ failed e
          | loaded rates ↦ with_part (version_part path pf) (add_files paths rates)
        ]
      ]
    ]

    -- LoadDir: the catalog after it, and its error. The files are none where the pattern is refused.
    unfoldable pub load_dir : Option (List Text) → Catalog C → Catalog C × Option LoadError
    load_dir none c = (c, some glob_failed)
    load_dir (some []) c = (c, some no_files)
    load_dir (some (p ∷ ps)) c = loaded_or (add_files (sort_strings (p ∷ ps)) []) c

  -- none is ErrModelNotPriced.
  unfoldable pub lookup : Text → Text → Catalog C → Option (Rate C)
  lookup provider model c = get (key_for provider model) c.rates

  unfoldable pub size : Catalog C → ℕ
  size c = length c.rates
