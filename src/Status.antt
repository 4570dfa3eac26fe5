-- ===== src/Status.antt =====
-- NTSTATUS codes: the values of ntstatus.h that the driver returns or tests (viosnd/sys/*.cpp), as
-- their 32-bit patterns, and the macro NT_SUCCESS.
use viosnd.Base.{ℕ, Bool, ltb}

abbrev pub NtStatus : Type 0
NtStatus = ℕ

-- NT_SUCCESS(Status): the status, read as a LONG, is not negative.
abbrev pub nt_success : NtStatus → Bool
nt_success s = ltb s 0x8000_0000

abbrev pub status_success : NtStatus
status_success = 0

abbrev pub status_timeout : NtStatus
status_timeout = 0x102

abbrev pub status_invalid_parameter : NtStatus
status_invalid_parameter = 0xC000_000D

abbrev pub status_invalid_device_request : NtStatus
status_invalid_device_request = 0xC000_0010

abbrev pub status_insufficient_resources : NtStatus
status_insufficient_resources = 0xC000_009A

abbrev pub status_device_not_ready : NtStatus
status_device_not_ready = 0xC000_00A3

abbrev pub status_io_timeout : NtStatus
status_io_timeout = 0xC000_00B5

abbrev pub status_not_supported : NtStatus
status_not_supported = 0xC000_00BB

abbrev pub status_io_device_error : NtStatus
status_io_device_error = 0xC000_0185

abbrev pub status_invalid_buffer_size : NtStatus
status_invalid_buffer_size = 0xC000_0206

abbrev pub status_not_found : NtStatus
status_not_found = 0xC000_0225

abbrev pub status_device_busy : NtStatus
status_device_busy = 0x8000_0011

abbrev pub status_no_match : NtStatus
status_no_match = 0xC000_0272

abbrev pub status_buffer_overflow : NtStatus
status_buffer_overflow = 0x8000_0005

abbrev pub status_buffer_too_small : NtStatus
status_buffer_too_small = 0xC000_0023

abbrev pub status_device_configuration_error : NtStatus
status_device_configuration_error = 0xC000_0182

abbrev pub status_no_such_device : NtStatus
status_no_such_device = 0xC000_000E

abbrev pub status_pending : NtStatus
status_pending = 0x103

abbrev pub status_not_implemented : NtStatus
status_not_implemented = 0xC000_0002
