-- ===== src/PhysMem/Examples.antt =====
-- The theorems on the frame bitmap, at concrete managers and a concrete memory map.
use maizono_os.Base.{◌≡◌, true, false, none, some, arith, ltb, if◌then◌else◌, ◌==◌}
use maizono_os.PhysMem.{
  BitmapMemoryManager, new, get_bit, mark_allocated, free, alloc, init, returned, frame_count,
}
use maizono_os.PhysMem.Bitmap.{AreWords, allocated, get_bit_lem}
use maizono_os.PhysMem.Range.{IsWritten, mark_allocated-IsWritten, free-IsWritten}
use maizono_os.PhysMem.Init.{IsReady, init-IsReady}
use maizono_os.PhysMem.Alloc.{alloc_lem}
use maizono_os.PhysMem.Sample.{uefi_types, memory_map, memory_map-IsMap}

-- Frames 0 to 15 managed; 3 and 65 marked.
abbrev manager : BitmapMemoryManager
manager = record { alloc_map = λ line. (if ltb line 2 then 8 else 0); begin = 1; end = 16 }

manager-AreWords : AreWords manager
manager-AreWords line = ground arith

get_bit_lem_example :
    get_bit manager 65 ≡ (if ltb 65 frame_count then some (allocated manager 65) else none)
get_bit_lem_example = get_bit_lem manager 65

mark_allocated-IsWritten_example : IsWritten true 60 10 manager (mark_allocated manager 60 10)
mark_allocated-IsWritten_example =
    mark_allocated-IsWritten manager 60 10 (omega arith) manager-AreWords

free-IsWritten_example : IsWritten false 60 10 manager (free manager 60 10)
free-IsWritten_example = free-IsWritten manager 60 10 (omega arith) manager-AreWords

alloc_lem_example : alloc manager 2 ≡ returned (if 2 == 0 then some manager.begin else none) manager
alloc_lem_example = alloc_lem manager 2 (omega arith) (omega arith)

init-IsReady_example : IsReady uefi_types memory_map (init uefi_types new memory_map)
init-IsReady_example = init-IsReady uefi_types memory_map memory_map-IsMap
