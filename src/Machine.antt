-- ===== src/Machine.antt =====
-- The state of the whole program: the world of the system calls, the drives of src/diskio.c, and
-- the work area of the FAT driver, whose type is a parameter.
use hdfmonkey.Base.{List, Option, Run, ok, fault, out_of_fuel, Cmd}
use hdfmonkey.Volume.{Volume}

pub record Machine (W F : Type 0) : Type 0 where
  pub world : W
  -- `static volume_container *volume_containers[8]`; `none` is NULL
  pub drives : List (Option Volume)
  pub fat : F

module _ {W F A : Type 0} where
  abbrev pub in_world : Machine W F → Run W A → Run (Machine W F) A
  in_world m (ok a w) = ok a (record m { world = w })
  in_world m fault = fault
  in_world m out_of_fuel = out_of_fuel

  -- A function of the lower files, run in the world of the program.
  abbrev pub lift : Cmd W A → Cmd (Machine W F) A
  lift c m = in_world m (c m.world)
