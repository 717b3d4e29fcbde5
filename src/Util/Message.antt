-- ===== src/Util/Message.antt =====
-- The log messages of src/util/include/message.def, and the functions of src/util/error_code.c
-- that read that table.
use Prim.Native.String.{String}
use litehttp_c.Base.{Bytes, codes, ◌++◌}

pub data HttpMessage : Type 0 where
  http_success : HttpMessage
  http_socket_err : HttpMessage
  http_setsocketopt_err : HttpMessage
  http_inet_pton_err : HttpMessage
  http_bind_err : HttpMessage
  http_listen_err : HttpMessage
  http_accept_err : HttpMessage
  http_sigaction_err : HttpMessage
  http_path_err : HttpMessage
  http_malloc_err : HttpMessage
  http_realloc_err : HttpMessage
  http_fread_err : HttpMessage
  http_read_err : HttpMessage
  http_write_err : HttpMessage
  http_config_err : HttpMessage
  http_fcntl_f_getfl_err : HttpMessage
  http_fcntl_f_setfl_err : HttpMessage
  http_epoll_create_err : HttpMessage
  http_epoll_ctl_add_err : HttpMessage
  http_epoll_ctl_del_err : HttpMessage
  http_epoll_wait_err : HttpMessage
  http_pthread_mutex_init_err : HttpMessage
  http_pthread_mutex_destroy_err : HttpMessage
  http_pthread_mutex_lock : HttpMessage
  http_pthread_mutex_unlock : HttpMessage
  http_open_err : HttpMessage
  http_fstat_err : HttpMessage
  http_mmap_err : HttpMessage
  http_munmap_err : HttpMessage
  http_hash_uninitialized_err : HttpMessage
  http_getcwd_err : HttpMessage
  http_get_unkown_status : HttpMessage
  http_get_unkown_version : HttpMessage
  http_param_invalid_nullptr : HttpMessage
  http_unset_fatal_err : HttpMessage
  http_unset_use_default : HttpMessage
  http_unset_server : HttpMessage
  http_unset_core : HttpMessage
  http_unset_logger : HttpMessage
  http_thd_pool_ini_err : HttpMessage
  http_thd_pool_destroy_err : HttpMessage
  http_thd_pool_thd_fn_err : HttpMessage
  http_thd_pool_add_job_err : HttpMessage
  http_parse_cannot_find_split : HttpMessage
  http_parse_cannot_find_clrf : HttpMessage
  http_parse_cannot_find_space : HttpMessage
  http_request_unkown_method : HttpMessage
  http_request_version_invalid : HttpMessage
  http_request_unkown_header : HttpMessage
  http_request_line_invalid : HttpMessage
  http_request_fatal_err : HttpMessage
  http_request_header_fill_up : HttpMessage
  http_request_fixed_body_len : HttpMessage
  http_request_chunked_body : HttpMessage
  http_request_tcp_segment_in_body : HttpMessage
  http_request_invalid_body : HttpMessage
  http_parse_unkown_transfer_encoding : HttpMessage
  http_parse_invalid_content_length : HttpMessage
  http_parse_unkown_content_type : HttpMessage
  http_parse_unkown_connection_type : HttpMessage
  http_parse_value_err : HttpMessage
  http_request_keep_alive : HttpMessage
  http_request_want_to_close : HttpMessage
  http_unset_port : HttpMessage
  http_unset_host : HttpMessage
  http_unset_base_dir : HttpMessage
  http_unset_handle_threads : HttpMessage
  http_unset_listen_que : HttpMessage
  http_unset_max_event : HttpMessage
  http_new_client_great : HttpMessage
  http_recv_from_client : HttpMessage
  http_start_listen : HttpMessage
  http_signal_terminal : HttpMessage
  http_client_close : HttpMessage
  http_report_client_info : HttpMessage

-- The levels of the logger that the table uses.
pub data CtpLogLevel : Type 0 where
  ctp_debug ctp_info ctp_warn ctp_error : CtpLogLevel

unfoldable pub http_message_level : HttpMessage → CtpLogLevel
http_message_level http_success = ctp_info
http_message_level http_socket_err = ctp_error
http_message_level http_setsocketopt_err = ctp_error
http_message_level http_inet_pton_err = ctp_error
http_message_level http_bind_err = ctp_error
http_message_level http_listen_err = ctp_error
http_message_level http_accept_err = ctp_error
http_message_level http_sigaction_err = ctp_error
http_message_level http_path_err = ctp_error
http_message_level http_malloc_err = ctp_error
http_message_level http_realloc_err = ctp_error
http_message_level http_fread_err = ctp_error
http_message_level http_read_err = ctp_error
http_message_level http_write_err = ctp_error
http_message_level http_config_err = ctp_error
http_message_level http_fcntl_f_getfl_err = ctp_error
http_message_level http_fcntl_f_setfl_err = ctp_error
http_message_level http_epoll_create_err = ctp_error
http_message_level http_epoll_ctl_add_err = ctp_error
http_message_level http_epoll_ctl_del_err = ctp_error
http_message_level http_epoll_wait_err = ctp_error
http_message_level http_pthread_mutex_init_err = ctp_error
http_message_level http_pthread_mutex_destroy_err = ctp_error
http_message_level http_pthread_mutex_lock = ctp_error
http_message_level http_pthread_mutex_unlock = ctp_error
http_message_level http_open_err = ctp_error
http_message_level http_fstat_err = ctp_error
http_message_level http_mmap_err = ctp_error
http_message_level http_munmap_err = ctp_error
http_message_level http_hash_uninitialized_err = ctp_error
http_message_level http_getcwd_err = ctp_error
http_message_level http_get_unkown_status = ctp_error
http_message_level http_get_unkown_version = ctp_error
http_message_level http_param_invalid_nullptr = ctp_error
http_message_level http_unset_fatal_err = ctp_error
http_message_level http_unset_use_default = ctp_warn
http_message_level http_unset_server = ctp_error
http_message_level http_unset_core = ctp_error
http_message_level http_unset_logger = ctp_warn
http_message_level http_thd_pool_ini_err = ctp_error
http_message_level http_thd_pool_destroy_err = ctp_error
http_message_level http_thd_pool_thd_fn_err = ctp_error
http_message_level http_thd_pool_add_job_err = ctp_error
http_message_level http_parse_cannot_find_split = ctp_error
http_message_level http_parse_cannot_find_clrf = ctp_info
http_message_level http_parse_cannot_find_space = ctp_error
http_message_level http_request_unkown_method = ctp_warn
http_message_level http_request_version_invalid = ctp_error
http_message_level http_request_unkown_header = ctp_warn
http_message_level http_request_line_invalid = ctp_error
http_message_level http_request_fatal_err = ctp_error
http_message_level http_request_header_fill_up = ctp_error
http_message_level http_request_fixed_body_len = ctp_info
http_message_level http_request_chunked_body = ctp_info
http_message_level http_request_tcp_segment_in_body = ctp_info
http_message_level http_request_invalid_body = ctp_error
http_message_level http_parse_unkown_transfer_encoding = ctp_error
http_message_level http_parse_invalid_content_length = ctp_error
http_message_level http_parse_unkown_content_type = ctp_error
http_message_level http_parse_unkown_connection_type = ctp_error
http_message_level http_parse_value_err = ctp_error
http_message_level http_request_keep_alive = ctp_info
http_message_level http_request_want_to_close = ctp_info
http_message_level http_unset_port = ctp_warn
http_message_level http_unset_host = ctp_warn
http_message_level http_unset_base_dir = ctp_warn
http_message_level http_unset_handle_threads = ctp_warn
http_message_level http_unset_listen_que = ctp_warn
http_message_level http_unset_max_event = ctp_warn
http_message_level http_new_client_great = ctp_info
http_message_level http_recv_from_client = ctp_info
http_message_level http_start_listen = ctp_info
http_message_level http_signal_terminal = ctp_info
http_message_level http_client_close = ctp_info
http_message_level http_report_client_info = ctp_debug

unfoldable pub http_message_str : HttpMessage → String
http_message_str http_success = "Success"
http_message_str http_socket_err = "Failed to create socket"
http_message_str http_setsocketopt_err = "Failed to set socket options"
http_message_str http_inet_pton_err = "Failed to convert address from text to binary form"
http_message_str http_bind_err = "Failed to bind socket to address"
http_message_str http_listen_err = "Failed to listen on socket"
http_message_str http_accept_err = "Failed to accept incoming connection"
http_message_str http_sigaction_err = "Failed to set signal handler"
http_message_str http_path_err = "Invalid file or directory path"
http_message_str http_malloc_err = "Memory allocation error"
http_message_str http_realloc_err = "Memory reallocation error"
http_message_str http_fread_err = "File read error"
http_message_str http_read_err = "Failed to read data from socket"
http_message_str http_write_err = "Failed to write data to socket"
http_message_str http_config_err = "Failed to set toml_configure"
http_message_str http_fcntl_f_getfl_err = "Failed to get file status flags in fcntl"
http_message_str http_fcntl_f_setfl_err = "Failed to set file status flags in fcntl"
http_message_str http_epoll_create_err = "Failed to create epoll fd"
http_message_str http_epoll_ctl_add_err = "Failed to add event in epoll ctl"
http_message_str http_epoll_ctl_del_err = "Failed to delete event in epoll ctl"
http_message_str http_epoll_wait_err = "Epoll wait error"
http_message_str http_pthread_mutex_init_err = "Pthread mutex init error"
http_message_str http_pthread_mutex_destroy_err = "Phtread mutex destroy error"
http_message_str http_pthread_mutex_lock = "Pthread mutex lock err"
http_message_str http_pthread_mutex_unlock = "Pthread mutex unlock err"
http_message_str http_open_err = "Failed to open %s"
http_message_str http_fstat_err = "Failed to get file %s status"
http_message_str http_mmap_err = "Failed to map memory by %d fd"
http_message_str http_munmap_err = "Failed to release mapped memory"
http_message_str http_hash_uninitialized_err = "Hash table uninitialized or released"
http_message_str http_getcwd_err = "Failed to call getcwd error"
http_message_str http_get_unkown_status = "Get unkown http status"
http_message_str http_get_unkown_version = "Get unkown http version"
http_message_str http_param_invalid_nullptr = "Function value receive invalid argument nullptr"
http_message_str http_unset_fatal_err =
    "Critical configuration missing, program cannot continue running"
http_message_str http_unset_use_default = "Configuration missing, using default value"
http_message_str http_unset_server = "Failed read server configure"
http_message_str http_unset_core = "Failed to read core configure"
http_message_str http_unset_logger = "Failed read logger configure"
http_message_str http_thd_pool_ini_err = "Failed to initialize thread pool"
http_message_str http_thd_pool_destroy_err = "Failed to destroy thread pool"
http_message_str http_thd_pool_thd_fn_err = "Thread %d (base on thread pool) error"
http_message_str http_thd_pool_add_job_err = "Failed to add job to thread pool"
http_message_str http_parse_cannot_find_split = "Failed to find \\r\\n in http post"
http_message_str http_parse_cannot_find_clrf = "Failed to find clrf in http post in %s stage"
http_message_str http_parse_cannot_find_space = "Failed to fild split %c"
http_message_str http_request_unkown_method = "Client request an unkown method"
http_message_str http_request_version_invalid = "Client request http version is invalid"
http_message_str http_request_unkown_header = "Client request an unkown http header %s"
http_message_str http_request_line_invalid = "Client request message invalid in request line"
http_message_str http_request_fatal_err = "Client request occured a fatal error, terminate parsing"
http_message_str http_request_header_fill_up = "Client request headers fill up"
http_message_str http_request_fixed_body_len = "Client request specify fixed body len %d"
http_message_str http_request_chunked_body = "Client request specify chunked body"
http_message_str http_request_tcp_segment_in_body = "Client request http post segment in http body"
http_message_str http_request_invalid_body = "Client request a invalid body post"
http_message_str http_parse_unkown_transfer_encoding =
    "Client request uses unknown Transfer-Encoding %s"
http_message_str http_parse_invalid_content_length = "Client request uses unkown content length"
http_message_str http_parse_unkown_content_type = "Client request uses unkown content type %s"
http_message_str http_parse_unkown_connection_type = "Client request uses unkown connection type %s"
http_message_str http_parse_value_err = "Cannot parse value %s"
http_message_str http_request_keep_alive = "Client request keep connection alive"
http_message_str http_request_want_to_close = "Client request want to close connection"
http_message_str http_unset_port = "Failed to read port configure"
http_message_str http_unset_host = "Failed to read host configure"
http_message_str http_unset_base_dir = "Failed to read base dir configure"
http_message_str http_unset_handle_threads = "Failed to read client handle threads configure"
http_message_str http_unset_listen_que = "Failed to read listen queue length configure"
http_message_str http_unset_max_event = "Failed to read max event configure"
http_message_str http_new_client_great = "New connection from ip:%s port:%d"
http_message_str http_recv_from_client = "Received from client: %s"
http_message_str http_start_listen = "Http server start listening on %s %d"
http_message_str http_signal_terminal = "Received signal %d, shutting down server"
http_message_str http_client_close = "Close connection %s:%d"
http_message_str http_report_client_info = "Handle client: %s:%d"

unfoldable pub http_message_str_with_prefix : HttpMessage → Bytes
unfolding http_message_str
http_message_str_with_prefix n = codes "%s " ++ codes (http_message_str n)
