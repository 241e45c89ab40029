-- ===== src/Http/Toy.antt =====
-- A router that takes the first route with a request's method and path, for the tests.
use oetp.Prelude.{
  Bool, true, false, ◌&&◌, Option, none, some, List, [], ◌∷◌, if◌then◌else◌, utf8, beq,
}
use oetp.Http.{Method, Route, HttpRequest, Router}

abbrev same_method : Method → Method → Bool
same_method Method.get Method.get = true
same_method Method.get Method.post = false
same_method Method.get Method.other_method = false
same_method Method.post Method.get = false
same_method Method.post Method.post = true
same_method Method.post Method.other_method = false
same_method Method.other_method m = false

unfoldable pub select : {E : Type 0} → List (Route E) → HttpRequest → Option E
unfolding utf8 beq
select [] req = none
select (r ∷ rs) req =
    let rest = select rs req in
    if same_method r.method req.method && beq (utf8 r.path) req.path then some r.endpoint else rest

abbrev pub toy_router : Router
toy_router = record {
  refused_by_layer = λ req. none;
  select = select;
  missed = λ req. 404;
  json_rejected = λ req. 422;
}
