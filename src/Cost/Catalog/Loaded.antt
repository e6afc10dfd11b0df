-- ===== src/Cost/Catalog/Loaded.antt =====
-- What a catalog that was loaded answers (apps/worker/cost-mapper/internal/catalog/catalog.go).
use mathlib.Core.List.{Memᴰ}
use openllm_metrics.Prelude.{
  ◌≡◌, refl, sym, ap, ◌∙◌, true, Option, none, some, List, [], ◌∷◌, ◌++◌, Text, Text-discrete, text,
  arith, get, is_in, sort_strings, is_in-sort_strings,
}
use openllm_metrics.Cost.{canonical}
use openllm_metrics.Cost.Catalog.{
  Rate, ModelEntry, ProviderFile, Catalog, Loading, loaded, failed, key_for, rate_of, unreadable,
  unparsable, add_models, add_file, add_files, with_part, version_part, load_dir, loaded_or, lookup,
}
use openllm_metrics.Cost.Catalog.Models.{add_models-keeps, add_models-listed, add_file_models}

abbrev of_some : {A : Type 0} → A → Option A → A
of_some a none = a
of_some a (some b) = b

module _ {C : Type 0} where
  module _ (read : Text → Option Text) (unmarshal : Text → Option (ProviderFile C)) where
    -- A load that succeeds read its first file, added it and went on with the rest.
    record IsAdded (path : Text) (paths : List Text) (next out : List (Text × Rate C))
        (parts : List Text) : Type 0 where
      raw : Text
      pf : ProviderFile C
      mid : List (Text × Rate C)
      rest : List Text
      readable : read path ≡ some raw
      decoded : unmarshal raw ≡ some pf
      added : add_models pf pf.models next ≡ loaded mid
      gone_on : add_files read unmarshal paths mid ≡ loaded (out, rest)

    with_part_of :
        (path : Text) (paths : List Text) (next out mid : List (Text × Rate C)) (parts : List Text)
        (raw : Text) (pf : ProviderFile C) (p : Text)
        → read path ≡ some raw
        → unmarshal raw ≡ some pf
        → add_models pf pf.models next ≡ loaded mid
        → (l : Loading (List (Text × Rate C) × List Text)) → add_files read unmarshal paths mid ≡ l
        → with_part p l ≡ loaded (out, parts)
        → IsAdded path paths next out parts
    with_part_of path paths next out mid parts raw pf p r u a (failed e) g h = absurd (ground arith)
    with_part_of path paths next out mid parts raw pf p r u a (loaded (rates, ps)) g h = record {
      raw = raw;
      pf = pf;
      mid = mid;
      rest = ps;
      readable = r;
      decoded = u;
      added = a;
      gone_on = g ∙ ap (λ x. loaded (x, ps)) (ground arith);
    }

    file-IsAdded :
        (path : Text) (paths : List Text) (next out : List (Text × Rate C)) (parts : List Text)
        (raw : Text) (pf : ProviderFile C) (p : Text)
        → read path ≡ some raw
        → unmarshal raw ≡ some pf
        → (l : Loading (List (Text × Rate C))) → add_file pf next ≡ l
        → elim l [
          | failed e ↦ failed e
          | loaded rates ↦ with_part p (add_files read unmarshal paths rates)
        ]
          ≡ loaded (out, parts)
        → IsAdded path paths next out parts
    file-IsAdded path paths next out parts raw pf p r u (failed e) g h = absurd (ground arith)
    file-IsAdded path paths next out parts raw pf p r u (loaded mid) g h =
        with_part_of path paths next out mid parts raw pf p r u (add_file_models pf next mid g)
          (add_files read unmarshal paths mid) refl h

    file_decoded :
        (path : Text) (paths : List Text) (next out : List (Text × Rate C)) (parts : List Text)
        (raw : Text)
        → read path ≡ some raw
        → (o : Option (ProviderFile C)) → unmarshal raw ≡ o
        → elim o [
          | none ↦ failed unparsable
          | some pf ↦ elim (add_file pf next) [
            | failed e ↦ failed e
            | loaded rates ↦ with_part (version_part path pf) (add_files read unmarshal paths rates)
          ]
        ]
          ≡ loaded (out, parts)
        → IsAdded path paths next out parts
    file_decoded path paths next out parts raw r none u h = absurd (ground arith)
    file_decoded path paths next out parts raw r (some pf) u h =
        file-IsAdded path paths next out parts raw pf (version_part path pf) r u (add_file pf next)
          refl h

    file_read :
        (path : Text) (paths : List Text) (next out : List (Text × Rate C)) (parts : List Text)
        (o : Option Text)
        → read path ≡ o
        → elim o [
          | none ↦ failed unreadable
          | some raw ↦ elim (unmarshal raw) [
            | none ↦ failed unparsable
            | some pf ↦ elim (add_file pf next) [
              | failed e ↦ failed e
              | loaded rates ↦
                  with_part (version_part path pf) (add_files read unmarshal paths rates)
            ]
          ]
        ]
          ≡ loaded (out, parts)
        → IsAdded path paths next out parts
    file_read path paths next out parts none r h = absurd (ground arith)
    file_read path paths next out parts (some raw) r h =
        file_decoded path paths next out parts raw r (unmarshal raw) refl h

    IsAdded-of :
        (path : Text) (paths : List Text) (next out : List (Text × Rate C)) (parts : List Text)
        → add_files read unmarshal (path ∷ paths) next ≡ loaded (out, parts)
        → IsAdded path paths next out parts
    unfolding add_files
    IsAdded-of path paths next out parts h = file_read path paths next out parts (read path) refl h

    add_files-keeps :
        (paths : List Text) (next out : List (Text × Rate C)) (parts : List Text) (k : Text)
        (r : Rate C)
        → add_files read unmarshal paths next ≡ loaded (out, parts)
        → get k next ≡ some r
        → get k out ≡ some r
    unfolding add_files
    add_files-keeps [] next out parts k r h g = ground arith
    add_files-keeps (path ∷ paths) next out parts k r h g =
        let a = IsAdded-of path paths next out parts h in
        add_files-keeps paths a.mid out a.rest k r a.gone_on
          (add_models-keeps a.pf a.pf.models next a.mid k r a.added g)

    add_files-listed :
        (path : Text) (raw : Text) (pf : ProviderFile C) (e : ModelEntry C)
        → read path ≡ some raw
        → unmarshal raw ≡ some pf
        → Memᴰ e pf.models
        → (paths : List Text) (next out : List (Text × Rate C)) (parts : List Text)
        → is_in path paths ≡ true
        → add_files read unmarshal paths next ≡ loaded (out, parts)
        → get (key_for pf.provider e.model) out ≡ some (rate_of pf e)
    unfolding is_in
    add_files-listed path raw pf e r u m [] next out parts i h = absurd (ground arith)
    add_files-listed path raw pf e r u m (q ∷ paths) next out parts i h =
        let a = IsAdded-of q paths next out parts h in
        elim (Text-discrete path q) [
          | no n ↦
              add_files-listed path raw pf e r u m paths a.mid out a.rest (ground arith) a.gone_on
          | yes same ↦
              let raws : raw ≡ a.raw = ap (of_some raw) (sym r ∙ ap read same ∙ a.readable) in
              let files : pf ≡ a.pf = ap (of_some pf) (sym u ∙ ap unmarshal raws ∙ a.decoded) in
              add_files-keeps paths a.mid out a.rest (key_for pf.provider e.model) (rate_of pf e)
                a.gone_on
                (add_models-listed pf e pf.models next a.mid m
                  (ap (λ f. add_models f f.models next) files ∙ a.added))
        ]

    module _ (path raw : Text) (pf : ProviderFile C) (e : ModelEntry C) where
      lookup_rates :
          (files : List Text)
          → read path ≡ some raw
          → unmarshal raw ≡ some pf
          → Memᴰ e pf.models
          → is_in path files ≡ true
          → (c : Catalog C) (l : Loading (List (Text × Rate C) × List Text))
          → add_files read unmarshal (sort_strings files) [] ≡ l
          → (loaded_or l c).1 ≡ none
          → get (key_for pf.provider e.model) (loaded_or l c).0.rates ≡ some (rate_of pf e)
      lookup_rates files r u m i c (failed x) g h = absurd (ground arith)
      lookup_rates files r u m i c (loaded (rates, parts)) g h =
          add_files-listed path raw pf e r u m (sort_strings files) [] rates parts
            (is_in-sort_strings path files ∙ i) g

      -- After a load that succeeds, Lookup finds every model of every file of the directory, under
      -- any writing of the provider and the model that differs in case or in surrounding space
      -- only, and gives the price that this file has for it.
      pub lookup-load_dir :
          (files : List Text) (c : Catalog C) (provider model : Text)
          → (load_dir read unmarshal (some files) c).1 ≡ none
          → is_in path files ≡ true
          → read path ≡ some raw
          → unmarshal raw ≡ some pf
          → Memᴰ e pf.models
          → canonical provider ≡ canonical pf.provider
          → canonical model ≡ canonical e.model
          → lookup provider model (load_dir read unmarshal (some files) c).0 ≡ some (rate_of pf e)
      unfolding load_dir lookup key_for
      lookup-load_dir [] c provider model h i r u m p q = absurd (ground arith)
      lookup-load_dir (f ∷ fs) c provider model h i r u m p q =
          ap (λ x. get x (load_dir read unmarshal (some (f ∷ fs)) c).0.rates)
            (λ j. p j ++ text "|" ++ q j)
          ∙ lookup_rates (f ∷ fs) r u m i c (add_files read unmarshal (sort_strings (f ∷ fs)) [])
              refl h
