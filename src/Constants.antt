-- ===== src/Constants.antt =====
-- Common/include/Constants.h: error codes and sizes; and the numbers of the Windows ABI used with
-- them (64-bit build: pointers and `size_t` have 64 bits, `int` and `long` have 32).
use dcom.Base.{ℕ, ◌-◌, ◌^◌, ℤ, pos, negsuc}

abbrev pub pipe_buffer_size : ℕ
pipe_buffer_size = 512

abbrev pub max_number_of_times_to_poll : ℕ
max_number_of_times_to_poll = 10

-- `ERROR_SUCCESS` of the Windows headers.
abbrev pub error_success : ℤ
error_success = pos 0

abbrev pub error_invalid_value : ℤ
error_invalid_value = negsuc 0

abbrev pub error_no_object_found : ℤ
error_no_object_found = pos 50001

abbrev pub error_dispid_invalid : ℤ
error_dispid_invalid = pos 50002

abbrev pub error_parameter_invalid : ℤ
error_parameter_invalid = pos 50003

abbrev pub error_object_not_registered : ℤ
error_object_not_registered = pos 50004

abbrev pub error_memory_failure : ℤ
error_memory_failure = pos 50005

abbrev pub error_send_failed : ℤ
error_send_failed = pos 50006

abbrev pub error_receive_failed : ℤ
error_receive_failed = pos 50007

abbrev pub error_null_object : ℤ
error_null_object = pos 50008

abbrev pub error_type_not_supported : ℤ
error_type_not_supported = pos 50009

abbrev pub error_server_no_response : ℤ
error_server_no_response = pos 50010

abbrev pub error_critical_section : ℤ
error_critical_section = pos 50011

-- A `HANDLE` or a pointer is its address; `NULL` is 0.
abbrev pub handle_count : ℕ
handle_count = 2 ^ 64

abbrev pub invalid_handle_value : ℕ
invalid_handle_value = 2 ^ 64 - 1

-- `std::string::npos`
abbrev pub npos : ℕ
npos = 2 ^ 64 - 1
