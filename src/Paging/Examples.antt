-- ===== src/Paging/Examples.antt =====
-- The identity map of tables at concrete addresses.
use maizono_os.Paging.{new, init}
use maizono_os.Paging.Identity.{MapsIdentity, init-MapsIdentity}
use maizono_os.Paging.Sample.{layout, layout-IsPlaced}

init-MapsIdentity_example : MapsIdentity layout (init layout new)
init-MapsIdentity_example = init-MapsIdentity layout layout-IsPlaced
