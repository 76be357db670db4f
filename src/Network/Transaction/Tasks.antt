-- ===== src/Network/Transaction/Tasks.antt =====
-- Which HTTP requests become tasks.
use sage_store.Prelude.{
  ◌⊎◌, eq_iff, ◌∙◌, inr, inl, String, Bool, true, false, ◌≡◌, ◌↔◌, refl, ap, sym, leb, List, Option,
  none, some, length, ◌==◌, if◌then◌else◌, arith,
}
use sage_store.Exec.{Result, ok, err, and_then}
use sage_store.DataSpecs.{Dataset, RequestData}
use sage_store.Network.{has_non_whitespace, HttpRequest, IDataSerializer}
use sage_store.Network.Transaction.{
  is_blank, [], not, ◌∷◌, select, segment, parse_endpoint, request_dataset, request_data,
  handle_request,
}

abbrev task_or : RequestData → Result (Option RequestData) → RequestData
task_or default (ok (some task)) = task
task_or default _ = default

abbrev is_task : Result (Option RequestData) → Bool
is_task (ok (some task)) = true
is_task _ = false

no_task :
    {A : Type 0} (o : Result (Option RequestData)) (task : RequestData)
    → o ≡ ok (some task)
    → is_task o ≡ false
    → A
no_task o task h h' = ground arith

posted :
    (b : Bool) (t task : RequestData)
    → (if b then ok (some t) else ok none) ≡ ok (some task)
    → (b ≡ true) × (task ≡ t)
posted true t task h = (refl, ap (task_or task) (sym h))
posted false t task h = no_task (ok none) task h refl

module _ (split : String → List String) (serializer : IDataSerializer) (request : HttpRequest) where
  abbrev segments : List String
  segments = parse_endpoint split request.target

  -- The first segment, or the empty text.
  abbrev pub first_or_blank : List String → String
  first_or_blank [] = ""
  first_or_blank (x ∷ _) = x

  -- What a body says: nothing if it is blank, or what the serializer reads of it.
  abbrev pub Says : String → Dataset → Type 0
  Says body dataset =
      ((has_non_whitespace body ≡ false) × (dataset ≡ []))
      ⊎ ((has_non_whitespace body ≡ true) × (serializer.deserialize body ≡ ok dataset))

  -- The segments of the endpoint that are not blank are "api", a module, a submodule and maybe a
  -- resource, the body can be read, if there is one, and the task is made of these.
  abbrev pub Asks : RequestData → Type 0
  Asks task =
      (module_name submodule : String) × (rest : List String) × (dataset : Dataset) × (select
          (λ s. not (is_blank s)) (split request.target)
        ≡ "api" ∷ module_name ∷ submodule ∷ rest)
      × Says request.body dataset
      × (task ≡ record {
        module_name = module_name;
        submodule = submodule;
        method = request.method_string;
        resource_id = first_or_blank rest;
        dataset = dataset;
      })

  abbrev end_with : Result Dataset → Result (Option RequestData)
  end_with o = and_then o λ dataset.
      if segment 0 segments == "api"
      then ok (some (request_data split serializer segments request dataset))
      else ok none

  asks_of :
      (task : RequestData) (o : Result Dataset)
      → end_with o ≡ ok (some task)
      → ((segment 0 segments == "api") ≡ true)
        × ((dataset : Dataset) × (o ≡ ok dataset)
            × (task ≡ request_data split serializer segments request dataset))
  asks_of task (ok dataset) h =
      let (api, same) =
        posted (segment 0 segments == "api")
          (request_data split serializer segments request dataset) task h in
      (api, (dataset, refl, same))
  asks_of task (err e) h = no_task (err e) task h refl

  long_enough :
      (task : RequestData) (b : Bool) (o : Result (Option RequestData))
      → (if b then o else ok none) ≡ ok (some task)
      → (b ≡ true) × (o ≡ ok (some task))
  long_enough task true o h = (refl, h)
  long_enough task false o h = no_task (ok none) task h refl

  body-Says :
      (dataset : Dataset)
      → request_dataset split serializer request.body ≡ ok dataset
      → Says request.body dataset
  unfolding request_dataset
  body-Says dataset h = go (has_non_whitespace request.body) refl h
    where
      go :
          (b : Bool)
          → has_non_whitespace request.body ≡ b
          → (if b then serializer.deserialize request.body else ok []) ≡ ok dataset
          → Says request.body dataset
      go true e h = inr (e, h)
      go false e h = inl (e, cc h)

  said :
      (dataset : Dataset)
      → Says request.body dataset
      → request_dataset split serializer request.body ≡ ok dataset
  unfolding request_dataset
  said dataset (inl (blank, empty)) = rw (blank, empty) refl
  said dataset (inr (filled, read)) = rw filled read

  task-Asks :
      (task : RequestData) (dataset : Dataset) (found : List String)
      → segments ≡ found
      → leb 3 (length found) ≡ true
      → (segment 0 found == "api") ≡ true
      → Says request.body dataset
      → task ≡ request_data split serializer found request dataset
      → Asks task
  unfolding segment length request_data parse_endpoint
  task-Asks task dataset [] e long api says same = absurd (cc long)
  task-Asks task dataset (_ ∷ []) e long api says same = absurd (cc long)
  task-Asks task dataset (_ ∷ _ ∷ []) e long api says same = absurd (cc long)
  task-Asks task dataset (root ∷ module_name ∷ submodule ∷ []) e long api says same = (
    module_name,
    submodule,
    [],
    dataset,
    e ∙ ap (λ r. r ∷ module_name ∷ submodule ∷ []) ((eq_iff root "api").0 api),
    says,
    same,
  )
  task-Asks task dataset (root ∷ module_name ∷ submodule ∷ id ∷ rest) e long api says same = (
    module_name,
    submodule,
    id ∷ rest,
    dataset,
    e ∙ ap (λ r. r ∷ module_name ∷ submodule ∷ id ∷ rest) ((eq_iff root "api").0 api),
    says,
    same ∙ ground arith,
  )

  task_of :
      (task : RequestData) → Asks task → handle_request split serializer request ≡ ok (some task)
  unfolding handle_request segment length request_data parse_endpoint
  task_of task (module_name, submodule, [], dataset, path, says, same) =
      rw (path, said dataset says, same) refl
  task_of task (module_name, submodule, id ∷ rest, dataset, path, says, same) =
      rw (path, said dataset says, same) (ground arith)

  -- An HTTP request becomes a task exactly if the segments of its endpoint that are not blank are "api",
  -- a module, a submodule and maybe more, and its body is blank or can be read; the task holds that
  -- module and submodule, the method, the next segment as the resource, or none, and the columns that
  -- the serializer reads of the body, or none.
  pub handle_request_iff :
      (task : RequestData) → (handle_request split serializer request ≡ ok (some task)) ↔ Asks task
  unfolding handle_request
  handle_request_iff task = (
    λ h.
        let (long, ended) =
          long_enough task (leb 3 (length segments))
            (end_with (request_dataset split serializer request.body)) h in
        let (api, (dataset, read, same)) =
          asks_of task (request_dataset split serializer request.body) ended in
        task-Asks task dataset segments refl long api (body-Says dataset read) same,
    task_of task,
  )
