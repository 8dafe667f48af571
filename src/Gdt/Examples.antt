-- ===== src/Gdt/Examples.antt =====
-- The segments that `init` of the table builds.
use maizono_os.Base.{arith}
use maizono_os.Gdt.{execute_read, read_write, set_code_segment, set_data_segment}
use maizono_os.Gdt.Segment.{IsSegment, set_code_segment-IsSegment, set_data_segment-IsSegment}

set_code_segment-IsSegment_example :
    IsSegment (set_code_segment 0 execute_read 0 0 0xfffff) execute_read 0 0 0xfffff 1 0
set_code_segment-IsSegment_example =
    set_code_segment-IsSegment 0 execute_read 0 0 0xfffff (omega arith) (omega arith) (omega arith)

set_data_segment-IsSegment_example :
    IsSegment (set_data_segment 0 read_write 0 0 0xfffff) read_write 0 0 0xfffff 1 1
set_data_segment-IsSegment_example =
    set_data_segment-IsSegment 0 read_write 0 0 0xfffff (omega arith) (omega arith) (omega arith)
