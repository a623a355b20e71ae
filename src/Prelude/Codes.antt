-- ===== src/Prelude/Codes.antt =====
-- The constants of the OpenCL headers that the code returns and tests, as `cl_int`.
use vc4cl.Prelude.Int.{ℤ, pos, negsuc}

abbrev pub cl_success : ℤ
cl_success = pos 0

abbrev pub cl_out_of_resources : ℤ
cl_out_of_resources = negsuc 4

abbrev pub cl_out_of_host_memory : ℤ
cl_out_of_host_memory = negsuc 5

abbrev pub cl_profiling_info_not_available : ℤ
cl_profiling_info_not_available = negsuc 6

abbrev pub cl_mem_copy_overlap : ℤ
cl_mem_copy_overlap = negsuc 7

abbrev pub cl_misaligned_sub_buffer_offset : ℤ
cl_misaligned_sub_buffer_offset = negsuc 12

abbrev pub cl_build_program_failure : ℤ
cl_build_program_failure = negsuc 10

abbrev pub cl_exec_status_error_for_events_in_wait_list : ℤ
cl_exec_status_error_for_events_in_wait_list = negsuc 13

abbrev pub cl_compile_program_failure : ℤ
cl_compile_program_failure = negsuc 14

abbrev pub cl_linker_not_available : ℤ
cl_linker_not_available = negsuc 15

abbrev pub cl_link_program_failure : ℤ
cl_link_program_failure = negsuc 16

abbrev pub cl_invalid_value : ℤ
cl_invalid_value = negsuc 29

abbrev pub cl_invalid_device : ℤ
cl_invalid_device = negsuc 32

abbrev pub cl_invalid_context : ℤ
cl_invalid_context = negsuc 33

abbrev pub cl_invalid_queue_properties : ℤ
cl_invalid_queue_properties = negsuc 34

abbrev pub cl_invalid_command_queue : ℤ
cl_invalid_command_queue = negsuc 35

abbrev pub cl_invalid_host_ptr : ℤ
cl_invalid_host_ptr = negsuc 36

abbrev pub cl_invalid_mem_object : ℤ
cl_invalid_mem_object = negsuc 37

abbrev pub cl_invalid_binary : ℤ
cl_invalid_binary = negsuc 41

abbrev pub cl_invalid_program : ℤ
cl_invalid_program = negsuc 43

abbrev pub cl_invalid_program_executable : ℤ
cl_invalid_program_executable = negsuc 44

abbrev pub cl_invalid_arg_index : ℤ
cl_invalid_arg_index = negsuc 48

abbrev pub cl_invalid_arg_value : ℤ
cl_invalid_arg_value = negsuc 49

abbrev pub cl_invalid_arg_size : ℤ
cl_invalid_arg_size = negsuc 50

abbrev pub cl_invalid_kernel_args : ℤ
cl_invalid_kernel_args = negsuc 51

abbrev pub cl_invalid_work_dimension : ℤ
cl_invalid_work_dimension = negsuc 52

abbrev pub cl_invalid_work_group_size : ℤ
cl_invalid_work_group_size = negsuc 53

abbrev pub cl_invalid_global_offset : ℤ
cl_invalid_global_offset = negsuc 55

abbrev pub cl_invalid_event_wait_list : ℤ
cl_invalid_event_wait_list = negsuc 56

abbrev pub cl_invalid_event : ℤ
cl_invalid_event = negsuc 57

abbrev pub cl_invalid_operation : ℤ
cl_invalid_operation = negsuc 58

abbrev pub cl_invalid_buffer_size : ℤ
cl_invalid_buffer_size = negsuc 60

abbrev pub cl_invalid_global_work_size : ℤ
cl_invalid_global_work_size = negsuc 62

abbrev pub cl_complete : ℤ
cl_complete = pos 0

abbrev pub cl_running : ℤ
cl_running = pos 1

abbrev pub cl_submitted : ℤ
cl_submitted = pos 2

abbrev pub cl_queued : ℤ
cl_queued = pos 3

-- The states of a build, `cl_build_status`.
abbrev pub cl_build_success : ℤ
cl_build_success = pos 0

abbrev pub cl_build_none : ℤ
cl_build_none = negsuc 0

abbrev pub cl_build_error : ℤ
cl_build_error = negsuc 1

abbrev pub cl_build_in_progress : ℤ
cl_build_in_progress = negsuc 2
