-- ===== src/Acpi/Examples.antt =====
-- The theorem on the search for the tables, at concrete tables.
use maizono_os.Base.{◌≡◌, none, if◌then◌else◌}
use maizono_os.Acpi.{init}
use maizono_os.Acpi.Search.{fresh, passes, found, init_lem}
use maizono_os.Acpi.Sample.{tables, tables-NotAtNull}

init_lem_example :
    init tables 0x500 fresh ≡ (if passes tables 0x500 then found tables 0x500 else none)
init_lem_example = init_lem tables tables-NotAtNull 0x500
