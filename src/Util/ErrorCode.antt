-- ===== src/Util/ErrorCode.antt =====
-- The error codes of src/util/include/http_ec.def, and the functions of src/util/error_code.c over them.
pub mod Messages
use Prim.Native.String.{String}
use litehttp_c.Util.Message.{HttpMessage, http_message_str}

pub data HttpErr : Type 0 where
  http_success : HttpErr
  http_err_socket : HttpErr
  http_err_setsocketopt : HttpErr
  http_err_inet_pton : HttpErr
  http_err_bind : HttpErr
  http_err_listen : HttpErr
  http_err_accept : HttpErr
  http_err_sigaction : HttpErr
  http_err_path : HttpErr
  http_err_malloc : HttpErr
  http_err_fread : HttpErr
  http_err_read : HttpErr
  http_err_write : HttpErr
  http_err_config : HttpErr
  http_err_fcntl_f_getfl : HttpErr
  http_err_fcntl_f_setfl : HttpErr
  http_err_epoll_create : HttpErr
  http_err_epoll_ctl_add : HttpErr
  http_err_epoll_ctl_del : HttpErr
  http_err_epoll_wait : HttpErr
  http_err_unset_fatal : HttpErr
  http_err_unset_use_default : HttpErr
  http_err_thd_pool_ini : HttpErr
  http_err_thd_pool_destroy : HttpErr
  http_err_thd_pool_thd_fn : HttpErr
  http_err_thd_pool_add_job : HttpErr
  http_err_parse_cannot_find_split : HttpErr
  http_err_parse_cannot_find_space : HttpErr
  http_err_request_unkown_method : HttpErr
  http_err_request_version_invalid : HttpErr
  http_err_realloc : HttpErr
  http_err_client_close : HttpErr
  http_err_pthread_mutex_init : HttpErr
  http_err_pthread_mutex_destroy : HttpErr
  http_err_pthread_mutex_lock : HttpErr
  http_err_pthread_mutex_unlock : HttpErr
  http_err_open : HttpErr
  http_err_fstat : HttpErr
  http_err_mmap : HttpErr
  http_err_munmap : HttpErr
  http_err_hash_uninitialized : HttpErr
  http_err_getcwd : HttpErr
  http_err_get_unkown_status : HttpErr
  http_err_get_unkown_version : HttpErr
  http_err_parse_cannot_find_clrf : HttpErr
  http_err_request_fatal : HttpErr
  http_err_request_fixed_body_len : HttpErr
  http_err_request_chunked_body : HttpErr
  http_err_request_tcp_segment_in_body : HttpErr
  http_err_param_invalid_nullptr : HttpErr
  http_err_parse_unkown_transfer_encoding : HttpErr
  http_err_parse_invalid_content_length : HttpErr
  http_err_parse_unkown_content_type : HttpErr
  http_err_parse_unkown_connection_type : HttpErr
  http_err_parse_value : HttpErr
  http_err_request_keep_alive : HttpErr
  http_err_request_want_to_close : HttpErr

-- The return of 0 for success is the first message of the table.
unfoldable pub http_err_to_msg : HttpErr → HttpMessage
http_err_to_msg http_success = HttpMessage.http_success
http_err_to_msg http_err_socket = HttpMessage.http_socket_err
http_err_to_msg http_err_setsocketopt = HttpMessage.http_setsocketopt_err
http_err_to_msg http_err_inet_pton = HttpMessage.http_inet_pton_err
http_err_to_msg http_err_bind = HttpMessage.http_bind_err
http_err_to_msg http_err_listen = HttpMessage.http_listen_err
http_err_to_msg http_err_accept = HttpMessage.http_accept_err
http_err_to_msg http_err_sigaction = HttpMessage.http_sigaction_err
http_err_to_msg http_err_path = HttpMessage.http_path_err
http_err_to_msg http_err_malloc = HttpMessage.http_malloc_err
http_err_to_msg http_err_fread = HttpMessage.http_fread_err
http_err_to_msg http_err_read = HttpMessage.http_read_err
http_err_to_msg http_err_write = HttpMessage.http_write_err
http_err_to_msg http_err_config = HttpMessage.http_config_err
http_err_to_msg http_err_fcntl_f_getfl = HttpMessage.http_fcntl_f_getfl_err
http_err_to_msg http_err_fcntl_f_setfl = HttpMessage.http_fcntl_f_setfl_err
http_err_to_msg http_err_epoll_create = HttpMessage.http_epoll_create_err
http_err_to_msg http_err_epoll_ctl_add = HttpMessage.http_epoll_ctl_add_err
http_err_to_msg http_err_epoll_ctl_del = HttpMessage.http_epoll_ctl_del_err
http_err_to_msg http_err_epoll_wait = HttpMessage.http_epoll_wait_err
http_err_to_msg http_err_unset_fatal = HttpMessage.http_unset_fatal_err
http_err_to_msg http_err_unset_use_default = HttpMessage.http_unset_use_default
http_err_to_msg http_err_thd_pool_ini = HttpMessage.http_thd_pool_ini_err
http_err_to_msg http_err_thd_pool_destroy = HttpMessage.http_thd_pool_destroy_err
http_err_to_msg http_err_thd_pool_thd_fn = HttpMessage.http_thd_pool_thd_fn_err
http_err_to_msg http_err_thd_pool_add_job = HttpMessage.http_thd_pool_add_job_err
http_err_to_msg http_err_parse_cannot_find_split = HttpMessage.http_parse_cannot_find_split
http_err_to_msg http_err_parse_cannot_find_space = HttpMessage.http_parse_cannot_find_space
http_err_to_msg http_err_request_unkown_method = HttpMessage.http_request_unkown_method
http_err_to_msg http_err_request_version_invalid = HttpMessage.http_request_version_invalid
http_err_to_msg http_err_realloc = HttpMessage.http_realloc_err
http_err_to_msg http_err_client_close = HttpMessage.http_client_close
http_err_to_msg http_err_pthread_mutex_init = HttpMessage.http_pthread_mutex_init_err
http_err_to_msg http_err_pthread_mutex_destroy = HttpMessage.http_pthread_mutex_destroy_err
http_err_to_msg http_err_pthread_mutex_lock = HttpMessage.http_pthread_mutex_lock
http_err_to_msg http_err_pthread_mutex_unlock = HttpMessage.http_pthread_mutex_unlock
http_err_to_msg http_err_open = HttpMessage.http_open_err
http_err_to_msg http_err_fstat = HttpMessage.http_fstat_err
http_err_to_msg http_err_mmap = HttpMessage.http_mmap_err
http_err_to_msg http_err_munmap = HttpMessage.http_munmap_err
http_err_to_msg http_err_hash_uninitialized = HttpMessage.http_hash_uninitialized_err
http_err_to_msg http_err_getcwd = HttpMessage.http_getcwd_err
http_err_to_msg http_err_get_unkown_status = HttpMessage.http_get_unkown_status
http_err_to_msg http_err_get_unkown_version = HttpMessage.http_get_unkown_version
http_err_to_msg http_err_parse_cannot_find_clrf = HttpMessage.http_parse_cannot_find_clrf
http_err_to_msg http_err_request_fatal = HttpMessage.http_request_fatal_err
http_err_to_msg http_err_request_fixed_body_len = HttpMessage.http_request_fixed_body_len
http_err_to_msg http_err_request_chunked_body = HttpMessage.http_request_chunked_body
http_err_to_msg http_err_request_tcp_segment_in_body = HttpMessage.http_request_tcp_segment_in_body
http_err_to_msg http_err_param_invalid_nullptr = HttpMessage.http_param_invalid_nullptr
http_err_to_msg http_err_parse_unkown_transfer_encoding =
    HttpMessage.http_parse_unkown_transfer_encoding
http_err_to_msg http_err_parse_invalid_content_length =
    HttpMessage.http_parse_invalid_content_length
http_err_to_msg http_err_parse_unkown_content_type = HttpMessage.http_parse_unkown_content_type
http_err_to_msg http_err_parse_unkown_connection_type =
    HttpMessage.http_parse_unkown_connection_type
http_err_to_msg http_err_parse_value = HttpMessage.http_parse_value_err
http_err_to_msg http_err_request_keep_alive = HttpMessage.http_request_keep_alive
http_err_to_msg http_err_request_want_to_close = HttpMessage.http_request_want_to_close

unfoldable pub http_err_str : HttpErr → String
unfolding http_message_str
http_err_str http_success = "Success"
http_err_str http_err_socket = http_message_str HttpMessage.http_socket_err
http_err_str http_err_setsocketopt = http_message_str HttpMessage.http_setsocketopt_err
http_err_str http_err_inet_pton = http_message_str HttpMessage.http_inet_pton_err
http_err_str http_err_bind = http_message_str HttpMessage.http_bind_err
http_err_str http_err_listen = http_message_str HttpMessage.http_listen_err
http_err_str http_err_accept = http_message_str HttpMessage.http_accept_err
http_err_str http_err_sigaction = http_message_str HttpMessage.http_sigaction_err
http_err_str http_err_path = http_message_str HttpMessage.http_path_err
http_err_str http_err_malloc = http_message_str HttpMessage.http_malloc_err
http_err_str http_err_fread = http_message_str HttpMessage.http_fread_err
http_err_str http_err_read = http_message_str HttpMessage.http_read_err
http_err_str http_err_write = http_message_str HttpMessage.http_write_err
http_err_str http_err_config = http_message_str HttpMessage.http_config_err
http_err_str http_err_fcntl_f_getfl = http_message_str HttpMessage.http_fcntl_f_getfl_err
http_err_str http_err_fcntl_f_setfl = http_message_str HttpMessage.http_fcntl_f_setfl_err
http_err_str http_err_epoll_create = http_message_str HttpMessage.http_epoll_create_err
http_err_str http_err_epoll_ctl_add = http_message_str HttpMessage.http_epoll_ctl_add_err
http_err_str http_err_epoll_ctl_del = http_message_str HttpMessage.http_epoll_ctl_del_err
http_err_str http_err_epoll_wait = http_message_str HttpMessage.http_epoll_wait_err
http_err_str http_err_unset_fatal = http_message_str HttpMessage.http_unset_fatal_err
http_err_str http_err_unset_use_default = http_message_str HttpMessage.http_unset_use_default
http_err_str http_err_thd_pool_ini = http_message_str HttpMessage.http_thd_pool_ini_err
http_err_str http_err_thd_pool_destroy = http_message_str HttpMessage.http_thd_pool_destroy_err
http_err_str http_err_thd_pool_thd_fn = http_message_str HttpMessage.http_thd_pool_thd_fn_err
http_err_str http_err_thd_pool_add_job = http_message_str HttpMessage.http_thd_pool_add_job_err
http_err_str http_err_parse_cannot_find_split =
    http_message_str HttpMessage.http_parse_cannot_find_split
http_err_str http_err_parse_cannot_find_space =
    http_message_str HttpMessage.http_parse_cannot_find_space
http_err_str http_err_request_unkown_method =
    http_message_str HttpMessage.http_request_unkown_method
http_err_str http_err_request_version_invalid =
    http_message_str HttpMessage.http_request_version_invalid
http_err_str http_err_realloc = http_message_str HttpMessage.http_realloc_err
http_err_str http_err_client_close = http_message_str HttpMessage.http_client_close
http_err_str http_err_pthread_mutex_init = http_message_str HttpMessage.http_pthread_mutex_init_err
http_err_str http_err_pthread_mutex_destroy =
    http_message_str HttpMessage.http_pthread_mutex_destroy_err
http_err_str http_err_pthread_mutex_lock = http_message_str HttpMessage.http_pthread_mutex_lock
http_err_str http_err_pthread_mutex_unlock = http_message_str HttpMessage.http_pthread_mutex_unlock
http_err_str http_err_open = http_message_str HttpMessage.http_open_err
http_err_str http_err_fstat = http_message_str HttpMessage.http_fstat_err
http_err_str http_err_mmap = http_message_str HttpMessage.http_mmap_err
http_err_str http_err_munmap = http_message_str HttpMessage.http_munmap_err
http_err_str http_err_hash_uninitialized = http_message_str HttpMessage.http_hash_uninitialized_err
http_err_str http_err_getcwd = http_message_str HttpMessage.http_getcwd_err
http_err_str http_err_get_unkown_status = http_message_str HttpMessage.http_get_unkown_status
http_err_str http_err_get_unkown_version = http_message_str HttpMessage.http_get_unkown_version
http_err_str http_err_parse_cannot_find_clrf =
    http_message_str HttpMessage.http_parse_cannot_find_clrf
http_err_str http_err_request_fatal = http_message_str HttpMessage.http_request_fatal_err
http_err_str http_err_request_fixed_body_len =
    http_message_str HttpMessage.http_request_fixed_body_len
http_err_str http_err_request_chunked_body = http_message_str HttpMessage.http_request_chunked_body
http_err_str http_err_request_tcp_segment_in_body =
    http_message_str HttpMessage.http_request_tcp_segment_in_body
http_err_str http_err_param_invalid_nullptr =
    http_message_str HttpMessage.http_param_invalid_nullptr
http_err_str http_err_parse_unkown_transfer_encoding =
    http_message_str HttpMessage.http_parse_unkown_transfer_encoding
http_err_str http_err_parse_invalid_content_length =
    http_message_str HttpMessage.http_parse_invalid_content_length
http_err_str http_err_parse_unkown_content_type =
    http_message_str HttpMessage.http_parse_unkown_content_type
http_err_str http_err_parse_unkown_connection_type =
    http_message_str HttpMessage.http_parse_unkown_connection_type
http_err_str http_err_parse_value = http_message_str HttpMessage.http_parse_value_err
http_err_str http_err_request_keep_alive = http_message_str HttpMessage.http_request_keep_alive
http_err_str http_err_request_want_to_close =
    http_message_str HttpMessage.http_request_want_to_close
