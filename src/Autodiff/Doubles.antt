-- ===== src/Autodiff/Doubles.antt =====
-- The arithmetic that autodiff takes from C++: double with its operators and the functions of <cmath>.
-- It is a parameter; a theorem names the laws that it needs.
use supplementary.Base.{Bool}

pub record Doubles : Type 1 where
  pub D : Type 0
  pub nil : D
  pub one : D
  pub add : D → D → D
  pub mul : D → D → D
  pub sub : D → D → D
  pub div : D → D → D
  pub neg : D → D
  pub fabs : D → D
  pub sin : D → D
  pub cos : D → D
  pub exp : D → D
  pub log : D → D
  pub pow : D → D → D
  pub atan2 : D → D → D
  -- `<`, `<=` and `==`
  pub lt : D → D → Bool
  pub le : D → D → Bool
  pub eq : D → D → Bool
  pub infinity : D
  -- Term::EPSILON, and the literals 0.75 and 0.999 of the tape visitors
  pub epsilon : D
  pub three_quarters : D
  pub almost_one : D
