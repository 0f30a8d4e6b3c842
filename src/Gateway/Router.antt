-- ===== src/Gateway/Router.antt =====
-- What the router does with a table of routes, as its documentation has it: a parameter in braces
-- stands for the text up to the next slash or the end.
use Prim.Native.Char.{code}
use Prim.Native.String.{◌++◌}
use text.Mathlib.Text.{find?}
use system_design_homework.Prelude.{
  String, ◌≡◌, Bool, true, false, ◌&&◌, ◌||◌, not, Option, none, some, is_some, List, [], ◌∷◌, eqb,
  ◌==◌, if◌then◌else◌, Bool-cases, inl, inr, refl,
}
use system_design_homework.Generated.{Values, Route}
use system_design_homework.Wire.{get}
use system_design_homework.Logger.{Request}

-- A path cut at its slashes: its first piece, and the others.
abbrev pub cut : String → String × List String
cut String.[] = ("", [])
cut (String.◌∷◌ c s) =
    let (piece, others) = cut s in
    if eqb (code c) b'/' then ("", piece ∷ others) else (String.◌∷◌ c piece, others)

-- Behind the slash in front.
abbrev pub pieces : String → List String
pieces path = (cut path).1

abbrev but_last : String → String
but_last String.[] = String.[]
but_last (String.◌∷◌ c String.[]) = String.[]
but_last (String.◌∷◌ c (String.◌∷◌ d s)) = String.◌∷◌ c (but_last (String.◌∷◌ d s))

-- The name of a parameter.
abbrev pub param : String → Option String
param String.[] = none
param (String.◌∷◌ c s) = if eqb (code c) b'{' then some (but_last s) else none

abbrev pub bound : String → String → Option Values → Option Values
bound name value none = none
bound name value (some vs) = some ((name, value) ∷ vs)

abbrev plain_text : String → Bool
plain_text s =
    not (is_some (find? s "{"))
    && (not (is_some (find? s "}")) && (not (is_some (find? s ":")) && not (is_some (find? s "*"))))

-- A text, or a parameter alone, without a wildcard and without an expression.
abbrev is_plain : String → Bool
is_plain p = elim (param p) [
  | none ↦ plain_text p
  | some name ↦ plain_text name && p == "{" ++ (name ++ "}")
]

abbrev all_plain : List String → Bool
all_plain [] = true
all_plain (p ∷ ps) = is_plain p && all_plain ps

-- The parameters of a path that fits a pattern.
abbrev pub fits : List String → List String → Option Values
fits [] [] = some []
fits [] (x ∷ xs) = none
fits (p ∷ ps) [] = none
fits (p ∷ ps) (x ∷ xs) =
    let rest = fits ps xs in
    elim (param p) [ none ↦ if p == x then rest else none | some name ↦ bound name x rest ]

-- No piece of a path is empty.
abbrev pub is_clean : List String → Bool
is_clean [] = true
is_clean (x ∷ xs) = not (x == "") && is_clean xs

-- Whatever a test says.
pub none_either : (b : Bool) → ◌≡◌ {A = Option Values} (if b then none else none) none
none_either true = refl
none_either false = refl

-- The first piece is another one.
pub other_piece :
    (p x : String) (ps xs : List String)
    → param p ≡ none
    → p == x ≡ false
    → fits (p ∷ ps) (x ∷ xs) ≡ none
other_piece p x ps xs plain differs = rw (plain, differs, fits) refl

-- The path that chi routes on.
abbrev pub route_path : Request → String
route_path r = if r.raw_path == "" then r.path else r.raw_path

-- The methods that chi knows; any other is answered as not allowed on every path.
abbrev pub is_known : String → Bool
is_known m =
    m == "GET"
    || (m == "POST"
        || (m == "PUT"
            || (m == "PATCH"
                || (m == "DELETE"
                    || (m == "HEAD" || (m == "OPTIONS" || (m == "CONNECT" || m == "TRACE")))))))

module _ {A : Type 0} where
  -- The handlers, with the parameters, of the routes that a path fits.
  abbrev pub candidates :
      List String → List (Route Request A) → List (String × ((Request → A) × Values))
  candidates xs [] = []
  candidates xs (r ∷ rs) =
      let rest = candidates xs rs in
      elim (fits (pieces r.pattern) xs) [
        | none ↦ rest
        | some vs ↦ (r.method, (r.handler, vs)) ∷ rest
      ]

  abbrev pub with_method :
      String → List (String × ((Request → A) × Values)) → List ((Request → A) × Values)
  with_method m [] = []
  with_method m ((m', h) ∷ hs) = let rest = with_method m hs in if m' == m then h ∷ rest else rest

  abbrev pub is_simple : List (Route Request A) → Bool
  is_simple [] = true
  is_simple (r ∷ rs) = all_plain (pieces r.pattern) && is_simple rs

  -- A router that finds nothing answers with 404, and with 405 where only the method is wrong.
  pub record IsRouter (mux : List (Route Request A) → Request → A) (not_found not_allowed : A)
      : Type 0 where
    pub routed :
        (rs : List (Route Request A)) (r : Request) (h : Request → A) (vs : Values)
        → is_known r.method ≡ true
        → is_simple rs ≡ true
        → is_clean (pieces (route_path r)) ≡ true
        → with_method r.method (candidates (pieces (route_path r)) rs) ≡ (h, vs) ∷ []
        → mux rs r ≡ h (record r { order_id = get "order_id" vs })
    pub wrong_method :
        (rs : List (Route Request A)) (r : Request) (c : String × ((Request → A) × Values))
        (cs : List (String × ((Request → A) × Values)))
        → is_known r.method ≡ true
        → is_simple rs ≡ true
        → is_clean (pieces (route_path r)) ≡ true
        → with_method r.method (candidates (pieces (route_path r)) rs) ≡ []
        → candidates (pieces (route_path r)) rs ≡ c ∷ cs
        → mux rs r ≡ not_allowed
    pub unknown_path :
        (rs : List (Route Request A)) (r : Request)
        → is_known r.method ≡ true
        → is_simple rs ≡ true
        → is_clean (pieces (route_path r)) ≡ true
        → candidates (pieces (route_path r)) rs ≡ []
        → mux rs r ≡ not_found

  -- Where a path fits one route.
  pub one_route :
      {mux : List (Route Request A) → Request → A} {not_found not_allowed : A}
      → IsRouter mux not_found not_allowed
      → (rs : List (Route Request A)) (r : Request) (xs : List String) (m : String)
        (h : Request → A) (vs : Values)
      → is_known r.method ≡ true
      → is_simple rs ≡ true
      → pieces (route_path r) ≡ xs
      → is_clean xs ≡ true
      → candidates xs rs ≡ (m, (h, vs)) ∷ []
      → mux rs r
        ≡ (if m == r.method then h (record r { order_id = get "order_id" vs }) else not_allowed)
  one_route is_router rs r xs m h vs known simple at clean one = elim (Bool-cases (m == r.method)) [
    | inl e ↦ rw e (is_router.routed rs r h vs known simple (rw at clean) (rw (at, one, e) refl))
    | inr e ↦ rw e (
        is_router.wrong_method rs r (m, (h, vs)) [] known simple (rw at clean)
          (rw (at, one, e) refl) (rw at one))
  ]

  -- No route fits.
  abbrev pub Misses : List String → List (Route Request A) → Type 0
  Misses xs [] = Unit {0}
  Misses xs (r ∷ rs) = (fits (pieces r.pattern) xs ≡ none) × Misses xs rs

  candidates-Misses :
      (xs : List String) (rs : List (Route Request A)) → Misses xs rs → candidates xs rs ≡ []
  candidates-Misses xs [] miss = refl
  candidates-Misses xs (r ∷ rs) miss = rw (miss.0, candidates) (candidates-Misses xs rs miss.1)

  pub no_route :
      {mux : List (Route Request A) → Request → A} {not_found not_allowed : A}
      → IsRouter mux not_found not_allowed
      → (rs : List (Route Request A)) (r : Request) (xs : List String) → is_known r.method ≡ true
      → is_simple rs ≡ true
      → pieces (route_path r) ≡ xs
      → is_clean xs ≡ true
      → Misses xs rs
      → mux rs r ≡ not_found
  no_route is_router rs r xs known simple at clean miss =
      is_router.unknown_path rs r known simple (rw at clean) (rw at (candidates-Misses xs rs miss))
