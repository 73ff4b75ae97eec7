-- ===== src/Sql.antt =====
-- SQL statements as the services build them: a template literal is a list of pieces, and `$${n}`
-- is the placeholder of the n-th parameter. Runs of white space are one space.
pub mod Filter
pub mod Numbering
use ai_gcm.Base.{ℕ, String, List, [], ◌∷◌, ◌++◌}

pub data Piece : Type 0 where
  text : String → Piece
  param : ℕ → Piece

abbrev pub Sql : Type 0
Sql = List Piece

-- The numbers of the parameters that a statement names, in its order.
abbrev pub params_of : Sql → List ℕ
params_of [] = []
params_of (text s ∷ sql) = params_of sql
params_of (param n ∷ sql) = n ∷ params_of sql

-- `conditions.join(' AND ')`.
abbrev pub join_from : Sql → List Sql → Sql
join_from sql [] = sql
join_from sql (c ∷ cs) = join_from (sql ++ (text " AND " ∷ c)) cs

abbrev pub join_and : List Sql → Sql
join_and [] = []
join_and (c ∷ cs) = join_from c cs
