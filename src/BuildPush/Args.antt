-- ===== src/BuildPush/Args.antt =====
-- Which value `effectiveBuildArgs` gives a key.
use message_pusher.Base.{
  ◌≡◌, ◌≢◌, refl, sym, ap, ◌∙◌, true, false, List, [], ◌∷◌, ◌++◌, any, filter, not, Bool, Option,
  none, some, arith, if◌then◌else◌, Bool-cases, Option-cases, inl, inr,
}
use message_pusher.Text.{Text, Env, ◌==◌}
use message_pusher.Text.Laws.{==_iff}
use message_pusher.Config.Lists.{KeyValue}
use message_pusher.Config.Lists.{is_nonempty}
use message_pusher.Config.Images.{BuildOptions}
use message_pusher.Endpoints.{go_proxy_from}
use message_pusher.Resolve.{Endpoints, candidates, with_default_build_args}
use message_pusher.BuildPush.{
  set_arg, has_arg, set_args, add_missing, proxies_from, effective_build_args,
}

-- The value of the first argument with a key.
unfoldable pub value_in : List KeyValue → Text → Option Text
value_in [] key = none
value_in (a ∷ args) key = if a.key == key then some a.value else value_in args key

abbrev pub or_value : Option Text → Option Text → Option Text
or_value none o = o
or_value (some v) o = some v

-- The value of the last argument with a key.
unfoldable pub last_value : List KeyValue → Text → Option Text
last_value [] key = none
last_value (a ∷ args) key =
    or_value (last_value args key) (if a.key == key then some a.value else none)

module _ (key : Text) where
  value_in-set_arg :
      (args : List KeyValue) (new : KeyValue)
      → value_in (set_arg args new) key
        ≡ (if new.key == key then some new.value else value_in args key)
  unfolding value_in set_arg
  value_in-set_arg [] new = refl
  value_in-set_arg (old ∷ args) new = elim (Bool-cases (old.key == new.key)) [
    | inl e ↦
        let same : old.key ≡ new.key = (==_iff old.key new.key).0 e in
        let keys : (old.key == key) ≡ (new.key == key) = ap (λ (t : Text). t == key) same in
        ground arith
    | inr e ↦
        let rest = value_in-set_arg args new in
        elim (Bool-cases (new.key == key)) [
          | inl n ↦
              let same : new.key ≡ key = (==_iff new.key key).0 n in
              let keys : (old.key == new.key) ≡ (old.key == key) =
                ap (λ (t : Text). old.key == t) same in
              ground arith
          | inr n ↦ ground arith
        ]
  ]

  value_in-set_args :
      (more args : List KeyValue)
      → value_in (set_args args more) key ≡ or_value (last_value more key) (value_in args key)
  unfolding set_args last_value
  value_in-set_args [] args = refl
  value_in-set_args (new ∷ more) args =
      let rest = value_in-set_args more (set_arg args new) in
      let one = value_in-set_arg args new in ground arith

  has_arg_lem : (args : List KeyValue) → has_arg args key ≡ true → value_in args key ≢ none
  unfolding has_arg value_in
  has_arg_lem [] h = cc
  has_arg_lem (a ∷ args) h = let rest = has_arg_lem args in ground arith

  has_arg_not : (args : List KeyValue) → has_arg args key ≡ false → value_in args key ≡ none
  unfolding has_arg value_in
  has_arg_not [] h = refl
  has_arg_not (a ∷ args) h = let rest = has_arg_not args in ground arith

  value_in-add_missing :
      (more args : List KeyValue)
      → value_in (add_missing args more) key ≡ or_value (value_in args key) (value_in more key)
  unfolding add_missing value_in
  value_in-add_missing [] args = elim (Option-cases (value_in args key)) [
    | inl e ↦ rw e refl
    | inr (v, e) ↦ rw e refl
  ]
  value_in-add_missing (new ∷ more) args =
      let kept = value_in-add_missing more args in
      let added = value_in-add_missing more (set_arg args new) in
      let one = value_in-set_arg args new in
      elim (Bool-cases (new.key == key)) [
        | inl n ↦
            let same : new.key ≡ key = (==_iff new.key key).0 n in
            let found = has_arg_lem args in let missing = has_arg_not args in rw same (ground arith)
        | inr n ↦ ground arith
      ]

module _ (key : Text) where
  or_value-none : (a : Option Text) → or_value a none ≡ a
  or_value-none none = refl
  or_value-none (some v) = refl

  or_value_assoc : (a b c : Option Text) → or_value (or_value a b) c ≡ or_value a (or_value b c)
  or_value_assoc none b c = refl
  or_value_assoc (some v) b c = refl

  last_value-append :
      (xs ys : List KeyValue)
      → last_value (xs ++ ys) key ≡ or_value (last_value ys key) (last_value xs key)
  unfolding last_value
  last_value-append [] ys = elim (Option-cases (last_value ys key)) [
    | inl e ↦ rw e refl
    | inr (v, e) ↦ rw e refl
  ]
  last_value-append (x ∷ xs) ys =
      let rest = last_value-append xs ys in
      let one = if x.key == key then some x.value else none in
      rw rest (or_value_assoc (last_value ys key) (last_value xs key) one)

  abbrev has_key : List KeyValue → Text → Bool
  has_key args k = any (λ (a : KeyValue). a.key == k) args

  last_value-none : (args : List KeyValue) → last_value args key ≡ none → has_key args key ≡ false
  unfolding last_value
  last_value-none [] h = refl
  last_value-none (a ∷ args) h = elim (Option-cases (last_value args key)) [
    | inr (v, e) ↦ let h1 : some v ≡ none = rw e at h in cc h1
    | inl e ↦ elim (Bool-cases (a.key == key)) [
      | inl here ↦ let h1 : some a.value ≡ none = rw (e, here) at h in cc h1
      | inr other ↦ rw other (last_value-none args e)
    ]
  ]

  -- Leaving out what another list has does not matter for a key that it has not.
  last_value-filter :
      (args xs : List KeyValue)
      → has_key args key ≡ false
      → last_value (filter (λ (kv : KeyValue). not (has_key args kv.key)) xs) key
        ≡ last_value xs key
  unfolding last_value
  last_value-filter args [] h = refl
  last_value-filter args (x ∷ xs) h =
      let rest = last_value-filter args xs h in
      elim (Bool-cases (x.key == key)) [
        | inl here ↦
            let same : x.key ≡ key = (==_iff x.key key).0 here in
            let kept : has_key args x.key ≡ false = rw same h in rw kept (rw rest refl)
        | inr other ↦ elim (Bool-cases (has_key args x.key)) [
          | inr kept ↦ rw kept (rw rest refl)
          | inl dropped ↦ rw (dropped, other) (rest ∙ sym (or_value-none (last_value xs key)))
        ]
      ]

-- The arguments that resolve.mjs injects by itself, before it looks at DOCKER_BUILD_ARGS.
abbrev pub injected_args : Text → Env → Endpoints → List KeyValue
injected_args version env endpoints =
    filter (λ (kv : KeyValue). is_nonempty kv.value)
      (candidates version (go_proxy_from env) env endpoints)

last_value-with_default_build_args :
    (options : BuildOptions) (version : Text) (env : Env) (endpoints : Endpoints) (key : Text)
    → last_value (with_default_build_args options version env endpoints).build_args key
      ≡ or_value
          (last_value options.build_args key)
          (last_value (injected_args version env endpoints) key)
unfolding with_default_build_args
last_value-with_default_build_args options version env endpoints key =
    let own = options.build_args in
    let filled = injected_args version env endpoints in
    let left = filter (λ (kv : KeyValue). not (has_key key own kv.key)) filled in
    last_value-append key left own ∙ elim (Option-cases (last_value own key)) [
      | inr (v, e) ↦ rw e refl
      | inl e ↦ rw e (last_value-filter key own filled (last_value-none key own e))
    ]

values_by_key :
    (of_build of_options : List KeyValue) (env : Env) (key : Text)
    → value_in (effective_build_args of_build of_options env) key
      ≡ or_value
          (last_value of_options key)
          (or_value (last_value of_build key) (value_in (proxies_from env) key))
unfolding effective_build_args
values_by_key of_build of_options env key =
    let own = value_in-set_args key of_build [] in
    let proxied = value_in-add_missing key (proxies_from env) (set_args [] of_build) in
    let last =
      value_in-set_args key of_options (add_missing (set_args [] of_build) (proxies_from env)) in
    let whole = rw own at proxied in
    rw (last, whole)
      (elim (Option-cases (last_value of_build key)) [
        | inl e ↦ rw e (unfold value_in in refl)
        | inr (v, e) ↦ rw e refl
      ])

-- With the options as resolve.mjs hands them on, a key gets the value of the last entry for it in
-- `DOCKER_BUILD_ARGS`, else the value that resolve.mjs injects for it, else that of the last entry in
-- the variant's column, else the proxy variable of that name.
pub effective_build_args_lem :
    (of_build : List KeyValue) (options : BuildOptions) (version : Text) (resolve_env env : Env)
    (endpoints : Endpoints) (key : Text)
    → value_in
        (effective_build_args of_build
          (with_default_build_args options version resolve_env endpoints).build_args
          env)
        key
      ≡ or_value (last_value options.build_args key) (
          or_value
            (last_value (injected_args version resolve_env endpoints) key)
            (or_value (last_value of_build key) (value_in (proxies_from env) key)))
effective_build_args_lem of_build options version resolve_env env endpoints key =
    let handed_on = (with_default_build_args options version resolve_env endpoints).build_args in
    let later = or_value (last_value of_build key) (value_in (proxies_from env) key) in
    let filled = injected_args version resolve_env endpoints in
    values_by_key of_build handed_on env key
    ∙ ap (λ o. or_value o later)
        (last_value-with_default_build_args options version resolve_env endpoints key)
    ∙ or_value_assoc key (last_value options.build_args key) (last_value filled key) later
