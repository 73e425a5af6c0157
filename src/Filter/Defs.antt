-- ===== src/Filter/Defs.antt =====
-- A filter holds its own copy of the configuration. `Out` works on the object that it is handed:
-- it gives the object as it leaves it, and `ok` where it returns that object.
use dr.Base.{Result}
use dr.Api.{ObjResource, DrFilterConfig}

pub data Filter : Type 0 where
  white_list_filter : DrFilterConfig → Filter
  variable_mapping_filter : DrFilterConfig → Filter
  variable_delete_filter : DrFilterConfig → Filter
  pvc_filter : Filter

abbrev pub Filtered : Type 0
Filtered = ObjResource × Result (Unit {0})
