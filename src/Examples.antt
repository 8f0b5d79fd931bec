-- ===== src/Examples.antt =====
-- Concrete states on which the theorems are applied.
pub mod Storage
pub mod Decoded
pub mod Transfers
pub mod Running
pub mod Debugger
pub mod Program
pub mod Devices
use projet_s5_prog.Common.{arith, false, if◌then◌else◌, ◌==◌}
use projet_s5_prog.Constants.{cpsr}
use projet_s5_prog.Memory.{Memory}
use projet_s5_prog.Registers.{Registers}
use projet_s5_prog.Core.{ArmCore}
use projet_s5_prog.Core.Keeps.{IsWords}

-- Sixteen bytes, all 0.
abbrev pub zeros : Memory
zeros = record { is_big_endian = false; size = 16; adresses = λ j. 0 }

-- Registers of a processor in supervisor mode, with 8 in R2.
abbrev pub supervisor : Registers
supervisor = record { regs = λ j. if j == cpsr then 0x1d3 else if j == 2 then 8 else 0 }

abbrev pub machine : ArmCore
machine = record { cycle_count = 0; reg = supervisor; mem = zeros }

pub machine-IsWords : IsWords machine
machine-IsWords = record { regs_fit = λ j. ground arith; cells_fit = λ j. ground arith }
