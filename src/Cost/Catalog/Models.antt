-- ===== src/Cost/Catalog/Models.antt =====
-- The loop over the models of a pricing file (apps/worker/cost-mapper/internal/catalog/catalog.go).
use mathlib.Core.List.{Memᴰ}
use mathlib.Core.List.Memᴰ as In
use openllm_metrics.Prelude.{
  ◌≡◌, inl, inr, sym, ap, ◌∙◌, none, some, List, [], ◌∷◌, Text, arith, get, put, get-put,
}
use openllm_metrics.Cost.Catalog.{
  Rate, ModelEntry, ProviderFile, loaded, key_for, rate_of, add_models, add_file,
}

module _ {C : Type 0} where
  keeps-put :
      (j k : Text) (v w : Rate C) (m : List (Text × Rate C))
      → get k m ≡ none
      → get j m ≡ some w
      → get j (put k v m) ≡ some w
  keeps-put j k v w m n h = ground (arith, get-put j k v m)

  pub add_models-keeps :
      (pf : ProviderFile C) (es : List (ModelEntry C)) (next out : List (Text × Rate C)) (k : Text)
      (r : Rate C)
      → add_models pf es next ≡ loaded out
      → get k next ≡ some r
      → get k out ≡ some r
  unfolding add_models
  add_models-keeps pf [] next out k r h g = ground arith
  add_models-keeps pf (e ∷ es) next out k r h g =
      let key = key_for pf.provider e.model in
      ground (
        arith,
        add_models-keeps pf es (put key (rate_of pf e) next) out k r,
        keeps-put k key (rate_of pf e) r next,
      )

  get-put_self : (k : Text) (v : Rate C) (m : List (Text × Rate C)) → get k (put k v m) ≡ some v
  get-put_self k v m = ground (arith, get-put k k v m)

  -- A load that succeeds goes on with the rest of the models.
  add_models_rest :
      (pf : ProviderFile C) (e : ModelEntry C) (es : List (ModelEntry C))
      (next out : List (Text × Rate C))
      → add_models pf (e ∷ es) next ≡ loaded out
      → add_models pf es (put (key_for pf.provider e.model) (rate_of pf e) next) ≡ loaded out
  unfolding add_models
  add_models_rest pf e es next out h = ground arith

  pub add_models-listed :
      (pf : ProviderFile C) (e : ModelEntry C) (es : List (ModelEntry C))
      (next out : List (Text × Rate C))
      → Memᴰ e es
      → add_models pf es next ≡ loaded out
      → get (key_for pf.provider e.model) out ≡ some (rate_of pf e)
  add_models-listed pf e [] next out m h = absurd (In.not-nil m)
  add_models-listed pf e (x ∷ es) next out m h =
      let next' = put (key_for pf.provider x.model) (rate_of pf x) next in
      let rest = add_models_rest pf x es next out h in
      elim (In.cases_cons m) [
        | inr later ↦ add_models-listed pf e es next' out later rest
        | inl here ↦
            ap (λ a. get (key_for pf.provider a.model) out) here
            ∙ add_models-keeps pf es next' out (key_for pf.provider x.model) (rate_of pf x) rest
                (get-put_self (key_for pf.provider x.model) (rate_of pf x) next)
            ∙ ap (λ a. some (rate_of pf a)) (sym here)
      ]

  -- A file whose models were added.
  pub add_file_models :
      (pf : ProviderFile C) (next out : List (Text × Rate C))
      → add_file pf next ≡ loaded out
      → add_models pf pf.models next ≡ loaded out
  unfolding add_file
  add_file_models pf next out h = ground arith
