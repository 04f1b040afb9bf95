-- ===== src/Base/Table.antt =====
-- What the program relies on of a database table with a primary key: a row that has been written
-- is the row that is read, and no other row changes. The database itself is not modelled.
use mathlib.Core.Path.{◌≡◌}
use mathlib.Core.Option.{Option, some}
use open_simple_agent.Base.Tests.{if◌then◌else◌}
use open_simple_agent.Base.Same.{Same, ◌==◌}
use open_simple_agent.Base.Dict.{Dict, get, put, get-put}

pub record Table (K R : Type 0) ⦃e : Same K⦄ : Type 1 where
  pub State : Type 0
  -- `SELECT … WHERE key = k`
  pub select : State → K → Option R
  -- `INSERT` of a row, or `UPDATE` of all its columns
  pub write : State → K → R → State
  pub select-write :
      (t : State) (k j : K) (r : R)
      → select (write t k r) j ≡ (if k == j then some r else select t j)

-- A dictionary meets the description.
abbrev pub dict_table : {K R : Type 0} ⦃e : Same K⦄ → Table K R
dict_table {K} {R} = record { State = Dict K R; select = get; write = put; select-write = get-put }
