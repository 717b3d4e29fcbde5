-- ===== src/Util/ErrorCode/Messages.antt =====
-- Each error code of src/util/include/http_ec.def has a message of its own.
use litehttp_c.Base.{◌≡◌, refl, ap, ◌∙◌, Option, none, some}
use litehttp_c.Util.Message.{HttpMessage, http_message_str}
use litehttp_c.Util.ErrorCode.{
  HttpErr, http_success, http_err_to_msg, http_err_str, http_err_socket, http_err_setsocketopt,
  http_err_inet_pton, http_err_bind, http_err_listen, http_err_accept, http_err_sigaction,
  http_err_path, http_err_malloc, http_err_fread, http_err_read, http_err_write, http_err_config,
  http_err_fcntl_f_getfl, http_err_fcntl_f_setfl, http_err_epoll_create, http_err_epoll_ctl_add,
  http_err_epoll_ctl_del, http_err_epoll_wait, http_err_unset_fatal, http_err_unset_use_default,
  http_err_thd_pool_ini, http_err_thd_pool_destroy, http_err_thd_pool_thd_fn,
  http_err_thd_pool_add_job, http_err_parse_cannot_find_split, http_err_parse_cannot_find_space,
  http_err_request_unkown_method, http_err_request_version_invalid, http_err_realloc,
  http_err_client_close, http_err_pthread_mutex_init, http_err_pthread_mutex_destroy,
  http_err_pthread_mutex_lock, http_err_pthread_mutex_unlock, http_err_open, http_err_fstat,
  http_err_mmap, http_err_munmap, http_err_hash_uninitialized, http_err_getcwd,
  http_err_get_unkown_status, http_err_get_unkown_version, http_err_parse_cannot_find_clrf,
  http_err_request_fatal, http_err_request_fixed_body_len, http_err_request_chunked_body,
  http_err_request_tcp_segment_in_body, http_err_param_invalid_nullptr,
  http_err_parse_unkown_transfer_encoding, http_err_parse_invalid_content_length,
  http_err_parse_unkown_content_type, http_err_parse_unkown_connection_type, http_err_parse_value,
  http_err_request_keep_alive, http_err_request_want_to_close,
}

err_of_msg : HttpMessage → Option HttpErr
err_of_msg HttpMessage.http_success = some http_success
err_of_msg HttpMessage.http_socket_err = some http_err_socket
err_of_msg HttpMessage.http_setsocketopt_err = some http_err_setsocketopt
err_of_msg HttpMessage.http_inet_pton_err = some http_err_inet_pton
err_of_msg HttpMessage.http_bind_err = some http_err_bind
err_of_msg HttpMessage.http_listen_err = some http_err_listen
err_of_msg HttpMessage.http_accept_err = some http_err_accept
err_of_msg HttpMessage.http_sigaction_err = some http_err_sigaction
err_of_msg HttpMessage.http_path_err = some http_err_path
err_of_msg HttpMessage.http_malloc_err = some http_err_malloc
err_of_msg HttpMessage.http_fread_err = some http_err_fread
err_of_msg HttpMessage.http_read_err = some http_err_read
err_of_msg HttpMessage.http_write_err = some http_err_write
err_of_msg HttpMessage.http_config_err = some http_err_config
err_of_msg HttpMessage.http_fcntl_f_getfl_err = some http_err_fcntl_f_getfl
err_of_msg HttpMessage.http_fcntl_f_setfl_err = some http_err_fcntl_f_setfl
err_of_msg HttpMessage.http_epoll_create_err = some http_err_epoll_create
err_of_msg HttpMessage.http_epoll_ctl_add_err = some http_err_epoll_ctl_add
err_of_msg HttpMessage.http_epoll_ctl_del_err = some http_err_epoll_ctl_del
err_of_msg HttpMessage.http_epoll_wait_err = some http_err_epoll_wait
err_of_msg HttpMessage.http_unset_fatal_err = some http_err_unset_fatal
err_of_msg HttpMessage.http_unset_use_default = some http_err_unset_use_default
err_of_msg HttpMessage.http_thd_pool_ini_err = some http_err_thd_pool_ini
err_of_msg HttpMessage.http_thd_pool_destroy_err = some http_err_thd_pool_destroy
err_of_msg HttpMessage.http_thd_pool_thd_fn_err = some http_err_thd_pool_thd_fn
err_of_msg HttpMessage.http_thd_pool_add_job_err = some http_err_thd_pool_add_job
err_of_msg HttpMessage.http_parse_cannot_find_split = some http_err_parse_cannot_find_split
err_of_msg HttpMessage.http_parse_cannot_find_space = some http_err_parse_cannot_find_space
err_of_msg HttpMessage.http_request_unkown_method = some http_err_request_unkown_method
err_of_msg HttpMessage.http_request_version_invalid = some http_err_request_version_invalid
err_of_msg HttpMessage.http_realloc_err = some http_err_realloc
err_of_msg HttpMessage.http_client_close = some http_err_client_close
err_of_msg HttpMessage.http_pthread_mutex_init_err = some http_err_pthread_mutex_init
err_of_msg HttpMessage.http_pthread_mutex_destroy_err = some http_err_pthread_mutex_destroy
err_of_msg HttpMessage.http_pthread_mutex_lock = some http_err_pthread_mutex_lock
err_of_msg HttpMessage.http_pthread_mutex_unlock = some http_err_pthread_mutex_unlock
err_of_msg HttpMessage.http_open_err = some http_err_open
err_of_msg HttpMessage.http_fstat_err = some http_err_fstat
err_of_msg HttpMessage.http_mmap_err = some http_err_mmap
err_of_msg HttpMessage.http_munmap_err = some http_err_munmap
err_of_msg HttpMessage.http_hash_uninitialized_err = some http_err_hash_uninitialized
err_of_msg HttpMessage.http_getcwd_err = some http_err_getcwd
err_of_msg HttpMessage.http_get_unkown_status = some http_err_get_unkown_status
err_of_msg HttpMessage.http_get_unkown_version = some http_err_get_unkown_version
err_of_msg HttpMessage.http_parse_cannot_find_clrf = some http_err_parse_cannot_find_clrf
err_of_msg HttpMessage.http_request_fatal_err = some http_err_request_fatal
err_of_msg HttpMessage.http_request_fixed_body_len = some http_err_request_fixed_body_len
err_of_msg HttpMessage.http_request_chunked_body = some http_err_request_chunked_body
err_of_msg HttpMessage.http_request_tcp_segment_in_body = some http_err_request_tcp_segment_in_body
err_of_msg HttpMessage.http_param_invalid_nullptr = some http_err_param_invalid_nullptr
err_of_msg HttpMessage.http_parse_unkown_transfer_encoding =
    some http_err_parse_unkown_transfer_encoding
err_of_msg HttpMessage.http_parse_invalid_content_length =
    some http_err_parse_invalid_content_length
err_of_msg HttpMessage.http_parse_unkown_content_type = some http_err_parse_unkown_content_type
err_of_msg HttpMessage.http_parse_unkown_connection_type =
    some http_err_parse_unkown_connection_type
err_of_msg HttpMessage.http_parse_value_err = some http_err_parse_value
err_of_msg HttpMessage.http_request_keep_alive = some http_err_request_keep_alive
err_of_msg HttpMessage.http_request_want_to_close = some http_err_request_want_to_close
err_of_msg _ = none

err_of_msg-http_err_to_msg : (e : HttpErr) → err_of_msg (http_err_to_msg e) ≡ some e
unfolding err_of_msg http_err_to_msg
err_of_msg-http_err_to_msg http_success = refl
err_of_msg-http_err_to_msg _ = refl

http_err_str-msg : (e : HttpErr) → http_err_str e ≡ http_message_str (http_err_to_msg e)
unfolding http_err_str http_err_to_msg
http_err_str-msg http_success = refl
http_err_str-msg _ = refl

-- Two error codes with the same message are the same code, and the text of a code is the text of
-- that message, for success too.
pub http_err_to_msg_injective :
    (a b : HttpErr)
    → http_err_to_msg a ≡ http_err_to_msg b
    → (a ≡ b) × (http_err_str a ≡ http_message_str (http_err_to_msg b))
http_err_to_msg_injective a b h = (
  cc (err_of_msg-http_err_to_msg a, err_of_msg-http_err_to_msg b),
  http_err_str-msg a ∙ ap http_message_str h,
)
