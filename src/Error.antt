-- ===== src/Error.antt =====
-- kernel/src/error.rs, with the error types of the console and of the PCI code that it wraps.
use maizono_os.Graphic.FrameBuffer.{FrameBufferError}

pub data ConsoleError : Type 0 where
  uninitialized_error console_lock_error line_length_overflow : ConsoleError

pub data PciError : Type 0 where
  device_capacity_error uninitialized_error device_lock_error : PciError
  base_address_register_index_out_of_range_error : PciError

pub data Error : Type 0 where
  frame_buffer_error : FrameBufferError → Error
  console_error : ConsoleError → Error
  pci_error : PciError → Error
