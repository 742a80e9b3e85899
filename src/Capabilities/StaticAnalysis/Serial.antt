-- ===== src/Capabilities/StaticAnalysis/Serial.antt =====
-- `find_static_capabilities` of capa-x/src/capabilities/static_analysis.rs: its threads cannot be
-- told from its outcome, and its errors name the function they are of.
use capa_x.Prelude.{
  ℕ, ◌<◌, ◌≡◌, refl, sym, ap, ◌∙◌, Bool, Option, none, some, List, [], ◌∷◌, ◌⊎◌, inl, inr,
}
use capa_x.Prelude.Result.{Result, ok, err, ◌>>=◌, map_ok, collect}
use capa_x.Address.{Address}
use capa_x.Engine.MatchResult.{EngineError}
use capa_x.Freeze.{FunctionFeatures, StaticFeatures}
use capa_x.Parallel.{Jobs, serial_jobs, try_map}
use capa_x.Parallel.Serial.{try_map-collect}
use capa_x.Capabilities.Matching.{MatchResults}
use capa_x.Capabilities.Matcher.{Matcher}
use capa_x.Capabilities.StaticAnalysis.{
  CapabilityError, in_function, in_file, CodeCapabilities, StaticCapabilities, code_of, map_err,
  find_code_capabilities, conclude_static, find_static_capabilities, with_file, Gathered, gather,
  nothing_gathered,
}

module _ (rule_set : Matcher) (freeze : StaticFeatures) where
  abbrev pub of_functions : Result CapabilityError (List CodeCapabilities)
  of_functions = collect (code_of rule_set freeze.global_features) freeze.functions

  -- a finished schedule gives what the serial loop over the functions gives
  pub find_static_capabilities-conclude_static :
      (jobs : Jobs) (schedule : List (ℕ × Bool))
      (result : Result CapabilityError StaticCapabilities)
      → 0 < jobs.count
      → find_static_capabilities rule_set freeze jobs schedule ≡ some result
      → result ≡ conclude_static rule_set freeze of_functions
  unfolding find_static_capabilities
  find_static_capabilities-conclude_static jobs schedule result positive h = after _ refl h
    where
      after :
          (mapped : Option (Result CapabilityError (List CodeCapabilities)))
          → try_map (code_of rule_set freeze.global_features) freeze.functions jobs schedule
            ≡ mapped
          → elim mapped [
            | none ↦ none
            | some per_function ↦ some (conclude_static rule_set freeze per_function)
          ]
            ≡ some result
          → result ≡ conclude_static rule_set freeze of_functions
      after none e k = cc
      after (some per_function) e k =
          let same : per_function ≡ of_functions =
            try_map-collect (code_of rule_set freeze.global_features) freeze.functions jobs schedule
              per_function positive e in
          let here : conclude_static rule_set freeze per_function ≡ result = cc in
          sym here ∙ ap (conclude_static rule_set freeze) same

  -- The capabilities, the feature counts and the error are those of a run with one job, for every
  -- positive number of jobs and every schedule under which the workers end.
  pub find_static_capabilities-serial_jobs :
      (jobs : Jobs) (schedule : List (ℕ × Bool))
      (result : Result CapabilityError StaticCapabilities)
      → 0 < jobs.count
      → find_static_capabilities rule_set freeze jobs schedule ≡ some result
      → find_static_capabilities rule_set freeze serial_jobs [] ≡ some result
  unfolding find_static_capabilities
  find_static_capabilities-serial_jobs jobs schedule result positive h =
      ap some (sym (find_static_capabilities-conclude_static jobs schedule result positive h))

  abbrev Succeeds : Address → FunctionFeatures → Type 0
  Succeeds addr func =
      (code : CodeCapabilities) × (find_code_capabilities rule_set freeze.global_features addr func
        ≡ ok code)

  -- the first function that fails, at its address and with its error
  abbrev pub FailsAt : Address → EngineError → List (Address × FunctionFeatures) → Type 0
  FailsAt addr e [] = ⊥
  FailsAt addr e ((a, func) ∷ functions) =
      ((a ≡ addr) × (find_code_capabilities rule_set freeze.global_features a func ≡ err e))
      ⊎ (Succeeds a func × FailsAt addr e functions)

  in_function_step :
      (a addr : Address) (e : EngineError) (func : FunctionFeatures)
      (rest : Result CapabilityError (List CodeCapabilities))
      (functions : List (Address × FunctionFeatures)) (code : Result EngineError CodeCapabilities)
      → find_code_capabilities rule_set freeze.global_features a func ≡ code
      → (rest ≡ err (in_function addr e) → FailsAt addr e functions)
      → (map_err (in_function a) code >>= λ c. map_ok (λ cs. c ∷ cs) rest)
        ≡ err (in_function addr e)
      → FailsAt addr e ((a, func) ∷ functions)
  in_function_step a addr e func (ok cs) functions (ok c) here ih h = cc
  in_function_step a addr e func (err x) functions (ok c) here ih h = inr ((c, here), ih cc)
  in_function_step a addr e func rest functions (err x) here ih h = inl (cc, here ∙ cc)

  FailsAt-collect :
      (addr : Address) (e : EngineError) (functions : List (Address × FunctionFeatures))
      → collect (code_of rule_set freeze.global_features) functions ≡ err (in_function addr e)
      → FailsAt addr e functions
  FailsAt-collect addr e [] h = cc
  FailsAt-collect addr e ((a, func) ∷ functions) h =
      in_function_step a addr e func (collect (code_of rule_set freeze.global_features) functions)
        functions (find_code_capabilities rule_set freeze.global_features a func) refl
        (FailsAt-collect addr e functions) h

  -- an error at file scope is not one of a function
  file_step :
      (g : Gathered) (addr : Address) (e : EngineError)
      (found : Result EngineError (MatchResults × ℕ))
      → (map_err in_file found >>= λ r. ok (with_file g r)) ≡ err (in_function addr e)
      → ⊥
  file_step g addr e (ok r) h = cc
  file_step g addr e (err x) h = cc

  concluded :
      (addr : Address) (e : EngineError) (code : Result CapabilityError (List CodeCapabilities))
      → conclude_static rule_set freeze code ≡ err (in_function addr e)
      → code ≡ err (in_function addr e)
  unfolding conclude_static
  concluded addr e (ok code) h =
      absurd (file_step (gather nothing_gathered freeze.functions code) addr e _ h)
  concluded addr e (err x) h = let same : x ≡ in_function addr e = cc in ap err same

  -- An error of a function, under any positive number of jobs and any schedule, is the error that the matching
  -- of that function gives, and every function before it has been matched without one.
  pub find_static_capabilities-FailsAt :
      (jobs : Jobs) (schedule : List (ℕ × Bool)) (addr : Address) (e : EngineError)
      → 0 < jobs.count
      → find_static_capabilities rule_set freeze jobs schedule ≡ some (err (in_function addr e))
      → FailsAt addr e freeze.functions
  find_static_capabilities-FailsAt jobs schedule addr e positive h =
      FailsAt-collect addr e freeze.functions (
        concluded addr e of_functions (
          sym (
            find_static_capabilities-conclude_static jobs schedule (err (in_function addr e))
              positive h)))
